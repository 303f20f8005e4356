-- ===== src/Scramble/Tests.antt =====
-- Runs of the scrambling: the vectors of test/password-scramble-equivalence.test.ts and test/cpic.test.ts.
use open_rfc.Bytes.Words.{le_value}
use open_rfc.Common.{
  length, get_elem?, take, replicate, natural, ok, ℕ, ◌+◌, ◌≡◌, refl, some, List, [], ◌∷◌, arith,
}
use open_rfc.Scramble.{scramble_rfc_password}
use open_rfc.Scramble.Bits.{IsStart, IsKeyed}
use open_rfc.Scramble.Keyed.{scramble_rfc_password-IsKeyed}

abbrev secret : List ℕ
secret = 115 ∷ 101 ∷ 99 ∷ 114 ∷ 101 ∷ 116 ∷ []

scramble_pinned :
    scramble_rfc_password secret (natural 0x5ae0_b7a3)
    ≡ ok (163 ∷ 183 ∷ 224 ∷ 90 ∷ 4 ∷ 142 ∷ 170 ∷ 104 ∷ 52 ∷ 112 ∷ [])
unfolding scramble_rfc_password
scramble_pinned = refl

scramble_seed_zero :
    scramble_rfc_password (65 ∷ 66 ∷ []) (natural 0) ≡ ok (0 ∷ 0 ∷ 0 ∷ 0 ∷ 177 ∷ 80 ∷ [])
unfolding scramble_rfc_password
scramble_seed_zero = refl

scramble_wraps :
    scramble_rfc_password secret (natural 0x15)
    ≡ ok (21 ∷ 0 ∷ 0 ∷ 0 ∷ 137 ∷ 129 ∷ 220 ∷ 155 ∷ 145 ∷ 78 ∷ [])
unfolding scramble_rfc_password
scramble_wraps = refl

scramble_longest :
    scramble_rfc_password (replicate 40 120) (natural 0x15)
    ≡ ok (
        21 ∷ 0 ∷ 0 ∷ 0 ∷ 130 ∷ 156 ∷ 199 ∷ 145 ∷ 140 ∷ 66 ∷ 210 ∷ 119 ∷ 184 ∷ 146 ∷ 148 ∷ 227 ∷ 229
        ∷ 85 ∷ 49 ∷ 13 ∷ 42 ∷ 29 ∷ 171 ∷ 103 ∷ 40 ∷ 52 ∷ 101 ∷ 244 ∷ 100 ∷ 35 ∷ 107 ∷ 137 ∷ 238
        ∷ 229 ∷ 44 ∷ 171 ∷ 14 ∷ 18 ∷ 153 ∷ 186 ∷ 44 ∷ 202 ∷ 33 ∷ 69 ∷ [])
unfolding scramble_rfc_password
scramble_longest = refl

scramble_widest :
    scramble_rfc_password (replicate 40 120) (natural 0xffff_ffff)
    ≡ ok (
        255 ∷ 255 ∷ 255 ∷ 255 ∷ 21 ∷ 124 ∷ 114 ∷ 97 ∷ 199 ∷ 34 ∷ 156 ∷ 244 ∷ 49 ∷ 38 ∷ 156 ∷ 194
        ∷ 101 ∷ 107 ∷ 171 ∷ 39 ∷ 155 ∷ 20 ∷ 19 ∷ 173 ∷ 177 ∷ 166 ∷ 42 ∷ 35 ∷ 18 ∷ 58 ∷ 77 ∷ 61 ∷ 239
        ∷ 64 ∷ 91 ∷ 186 ∷ 253 ∷ 112 ∷ 124 ∷ 63 ∷ 44 ∷ 130 ∷ 212 ∷ 135 ∷ [])
unfolding scramble_rfc_password
scramble_widest = refl

scramble_rfc_password-IsKeyed_example :
    (field : List ℕ) × (start : ℕ) × (byte : ℕ) × (scramble_rfc_password secret
        (natural 0x5ae0_b7a3)
      ≡ ok field)
    × (length field ≡ 4 + 6)
    × (le_value (take 4 field) ≡ 0x5ae0_b7a3)
    × IsStart 0x5ae0_b7a3 start
    × (get_elem? field (4 + 2) ≡ some byte)
    × IsKeyed 0x5ae0_b7a3 start 2 99 byte
scramble_rfc_password-IsKeyed_example =
    scramble_rfc_password-IsKeyed secret 0x5ae0_b7a3 2 99 (omega arith) refl (omega arith) refl

-- ===== src/Ni/Queue.antt =====
-- The chunk queue of the NI decoder holds one stream of bytes.
use open_rfc.Bytes.Words.{be_value, be_from-append}
use open_rfc.Common.{
  length, take, drop, concat, All, length-append, length-drop, drop-append_le, take-split, All-drop,
  suc_eq_zero, ok, ℕ, zero, suc, ◌+◌, ◌-◌, ◌≤◌, ◌<◌, min, ◌≡◌, refl, sym, ap, ◌∙◌, List, [], ◌∷◌,
  ◌++◌, arith,
}
use open_rfc.Ni.{peek_uint32_be, be_from, peek_loop, Decoder}

abbrev pub pending : Decoder → List ℕ
pending d = drop d.head_offset (concat (drop d.head_index d.chunks))

-- The head offset lies inside the head chunk.
abbrev pub HeadWithin : ℕ → List (List ℕ) → Type 0
HeadWithin offset [] = offset ≡ 0
HeadWithin offset (c ∷ cs) = offset < length c

pub record IsQueue (d : Decoder) : Type 0 where
  pub nonempty : All (λ c. 0 < length c) d.chunks
  pub head : d.head_index ≤ length d.chunks
  pub within : HeadWithin d.head_offset (drop d.head_index d.chunks)

-- The part of the invariant that speaks of the chunks from the head on.
abbrev pub Ahead : ℕ → List (List ℕ) → Type 0
Ahead offset cs = All (λ c. 0 < length c) cs × HeadWithin offset cs

pub Ahead-next : (cs : List (List ℕ)) → All (λ c. 0 < length c) cs → Ahead 0 cs
Ahead-next [] h = (h, refl)
Ahead-next (c ∷ cs) h = (h, h.0)

-- Reading or taking `n` bytes, seen at the head chunk.
pub head_split :
    (c : List ℕ) (cs : List (List ℕ)) (offset n m : ℕ)
    → offset ≤ length c
    → m ≡ min n (length c - offset)
    → take n (drop offset (concat (c ∷ cs))) ≡ take m (drop offset c) ++ take (n - m) (concat cs)
head_split c cs offset n m h e =
    ap (take n) (drop-append_le offset c (concat cs) h)
    ∙ take-split n m (drop offset c) (concat cs) (omega (arith, length-drop offset c))

pub length-ahead :
    (c : List ℕ) (cs : List (List ℕ)) (offset : ℕ)
    → offset ≤ length c
    → length (drop offset (concat (c ∷ cs))) ≡ (length c - offset) + length (concat cs)
length-ahead c cs offset h =
    omega (arith, length-drop offset (concat (c ∷ cs)), length-append c (concat cs))

peek_loop_lem :
    (cs : List (List ℕ)) (offset n value : ℕ)
    → Ahead offset cs
    → n ≤ length (drop offset (concat cs))
    → peek_loop cs offset n value ≡ ok (be_from value (take n (drop offset (concat cs))))
unfolding peek_loop
peek_loop_lem [] offset zero value a h = refl
peek_loop_lem [] offset (suc n) value a h = absurd (omega (arith, length-drop {A = ℕ} offset []))
peek_loop_lem (c ∷ cs) offset zero value a h = refl
peek_loop_lem (c ∷ cs) offset (suc n) value a h = rw (suc_eq_zero n) (
    peek_loop_lem cs 0 (suc n - m) (be_from value (take m (drop offset c))) (Ahead-next cs a.0.1)
      (omega (arith, length-ahead c cs offset))
    ∙ ap ok (
        sym (
          ap (be_from value) (head_split c cs offset (suc n) m (omega arith) refl)
          ∙ be_from-append value (take m (drop offset c)) _)))
  where
    m : ℕ
    m = min (suc n) (length c - offset)

pub peek_uint32_be_lem :
    (d : Decoder)
    → IsQueue d
    → 4 ≤ length (pending d)
    → peek_uint32_be d ≡ ok (be_value (take 4 (pending d)))
unfolding peek_uint32_be
peek_uint32_be_lem d q h =
    peek_loop_lem (drop d.head_index d.chunks) d.head_offset 4 0
      (All-drop _ d.head_index d.chunks q.nonempty, q.within) h

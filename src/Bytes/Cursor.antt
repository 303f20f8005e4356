-- ===== src/Bytes/Cursor.antt =====
-- The reader as the bytes that are left: `reading xs ys` has read `xs` and has `ys` before it.
-- Each read takes its bytes off the front of `ys`.
use open_rfc.Bytes.Words.{be_value-be16, be_value-be32, be16, be32, be_value}
use open_rfc.Common.{
  length, length-append, take-length_append, drop-length_append, max_safe, natural,
  natural_in_range, le→ltb, ok, err, range_error, ℕ, ◌≤◌, ◌<◌, ◌≡◌, ap, ◌∙◌, List, [], ◌∷◌, ◌++◌,
  append_assoc, arith,
}
use open_rfc.Bytes.Reader.{
  ensure, window, read_bytes, read_uint8, finish_read, read_uint32_be, read_uint16_be, read_with,
  remaining, advance, Reader,
}

abbrev pub reading : List ℕ → List ℕ → Reader
reading xs ys = record { contents = xs ++ ys; offset = length xs }

remaining-reading : (xs ys : List ℕ) → remaining (reading xs ys) ≡ length ys
remaining-reading xs ys = omega (arith, length-append xs ys)

ensure-reading :
    (xs bs ys : List ℕ)
    → length bs ≤ max_safe
    → ensure (natural (length bs)) (reading xs (bs ++ ys)) ≡ ok (length bs)
ensure-reading xs bs ys h = rw (
  natural_in_range (length bs) 0 max_safe (omega arith) (omega arith) h,
  remaining-reading xs (bs ++ ys),
  le→ltb (length (bs ++ ys)) (length bs) (omega (arith, length-append bs ys)),
)

window-reading : (xs bs ys : List ℕ) → window (reading xs (bs ++ ys)) (length bs) ≡ bs
window-reading xs bs ys = rw (drop-length_append xs (bs ++ ys)) (take-length_append bs ys)

advance-reading :
    (xs bs ys : List ℕ) → advance (reading xs (bs ++ ys)) (length bs) ≡ reading (xs ++ bs) ys
advance-reading xs bs ys = rw (append_assoc xs bs ys, length-append xs bs)

pub read_with-reading {ℓ} :
    {A : Type ℓ} (value : List ℕ → A) (xs bs ys : List ℕ)
    → length bs ≤ max_safe
    → read_with (length bs) value (reading xs (bs ++ ys)) ≡ ok (value bs, reading (xs ++ bs) ys)
read_with-reading value xs bs ys h =
    rw (ensure-reading xs bs ys h, window-reading xs bs ys, advance-reading xs bs ys)

-- A read of more bytes than are left throws, whatever is read.
pub read_with_short {ℓ} :
    {A : Type ℓ} (n : ℕ) (value : List ℕ → A) (xs ys : List ℕ)
    → length ys < n
    → read_with n value (reading xs ys) ≡ err range_error
read_with_short n value xs ys h = rw (remaining-reading xs ys) (ground arith)

module _ (xs : List ℕ) where
  pub read_uint8-reading :
      (b : ℕ) (ys : List ℕ) → read_uint8 (reading xs (b ∷ ys)) ≡ ok (b, reading (xs ++ (b ∷ [])) ys)
  unfolding read_uint8
  read_uint8-reading b ys =
      read_with-reading be_value xs (b ∷ []) ys (omega arith)
      ∙ ap (λ v. ok (v, reading (xs ++ (b ∷ [])) ys)) (omega arith)

  pub read_uint16_be-reading :
      (n : ℕ) (ys : List ℕ)
      → read_uint16_be (reading xs (be16 n ++ ys)) ≡ ok (n, reading (xs ++ be16 n) ys)
  unfolding read_uint16_be
  read_uint16_be-reading n ys =
      read_with-reading be_value xs (be16 n) ys (omega arith)
      ∙ ap (λ v. ok (v, reading (xs ++ be16 n) ys)) (be_value-be16 n)

  pub read_uint32_be-reading :
      (n : ℕ) (ys : List ℕ)
      → read_uint32_be (reading xs (be32 n ++ ys)) ≡ ok (n, reading (xs ++ be32 n) ys)
  unfolding read_uint32_be
  read_uint32_be-reading n ys =
      read_with-reading be_value xs (be32 n) ys (omega arith)
      ∙ ap (λ v. ok (v, reading (xs ++ be32 n) ys)) (be_value-be32 n)

  pub read_bytes-reading :
      (bs ys : List ℕ)
      → length bs ≤ max_safe
      → read_bytes (natural (length bs)) (reading xs (bs ++ ys)) ≡ ok (bs, reading (xs ++ bs) ys)
  unfolding read_bytes
  read_bytes-reading bs ys h =
      rw (ensure-reading xs bs ys h, window-reading xs bs ys, advance-reading xs bs ys)

pub finish_read-reading : (xs : List ℕ) → finish_read (reading xs []) ≡ ok tt
unfolding finish_read
finish_read-reading xs = rw (remaining-reading xs [])

pub finish_read_early :
    (xs ys : List ℕ) (y : ℕ) → finish_read (reading xs (y ∷ ys)) ≡ err range_error
unfolding finish_read
finish_read_early xs ys y = rw (remaining-reading xs (y ∷ ys)) (ground arith)

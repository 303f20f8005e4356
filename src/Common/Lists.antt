-- ===== src/Common/Lists.antt =====
-- Lists measured and indexed by native numbers, under the library's names.
use Prim.Native.Nat.{ℕ, zero, suc, ◌+◌, ◌-◌, ◌≤◌, ◌<◌, min}
use mathlib.Core.Path.{◌≡◌, refl, sym, ap, ap₂, ◌∙◌}
use mathlib.Core.List.{List, [], ◌∷◌, ◌++◌, append_assoc}
use mathlib.Core.Option.{Option, none, some}
use native.Mathlib.Omega.{arith}

module _ {ℓ} {A : Type ℓ} where
  abbrev pub length : List A → ℕ
  length [] = 0
  length (x ∷ xs) = suc (length xs)

  abbrev pub get_elem? : List A → ℕ → Option A
  get_elem? [] i = none
  get_elem? (x ∷ xs) zero = some x
  get_elem? (x ∷ xs) (suc i) = get_elem? xs i

  abbrev pub take : ℕ → List A → List A
  take zero xs = []
  take (suc n) [] = []
  take (suc n) (x ∷ xs) = x ∷ take n xs

  abbrev pub drop : ℕ → List A → List A
  drop zero xs = xs
  drop (suc n) [] = []
  drop (suc n) (x ∷ xs) = drop n xs

  abbrev pub replicate : ℕ → A → List A
  replicate zero a = []
  replicate (suc n) a = a ∷ replicate n a

  abbrev pub concat : List (List A) → List A
  concat [] = []
  concat (xs ∷ xss) = xs ++ concat xss

  abbrev pub All {κ} : (A → Type κ) → List A → Type κ
  All P [] = Unit {κ}
  All P (x ∷ xs) = P x × All P xs

module _ {ℓ} {A : Type ℓ} where
  pub length-append : (xs ys : List A) → length (xs ++ ys) ≡ length xs + length ys
  length-append [] ys = omega arith
  length-append (x ∷ xs) ys = omega (arith, length-append xs ys)

  pub length-take : (n : ℕ) (xs : List A) → length (take n xs) ≡ min n (length xs)
  length-take zero xs = omega arith
  length-take (suc n) [] = omega arith
  length-take (suc n) (x ∷ xs) = omega (arith, length-take n xs)

  pub length-drop : (n : ℕ) (xs : List A) → length (drop n xs) ≡ length xs - n
  length-drop zero xs = omega arith
  length-drop (suc n) [] = omega arith
  length-drop (suc n) (x ∷ xs) = omega (arith, length-drop n xs)

  pub length-replicate : (n : ℕ) (a : A) → length (replicate n a) ≡ n
  length-replicate zero a = refl
  length-replicate (suc n) a = ap suc (length-replicate n a)

  pub take-append-drop : (n : ℕ) (xs : List A) → take n xs ++ drop n xs ≡ xs
  take-append-drop zero xs = refl
  take-append-drop (suc n) [] = refl
  take-append-drop (suc n) (x ∷ xs) = rw (take-append-drop n xs)

  pub take-length_append : (xs ys : List A) → take (length xs) (xs ++ ys) ≡ xs
  take-length_append [] ys = refl
  take-length_append (x ∷ xs) ys = rw (take-length_append xs ys)

  pub drop-length_append : (xs ys : List A) → drop (length xs) (xs ++ ys) ≡ ys
  drop-length_append [] ys = refl
  drop-length_append (x ∷ xs) ys = drop-length_append xs ys

  drop_nil : (m : ℕ) → drop {A = A} m [] ≡ []
  drop_nil zero = refl
  drop_nil (suc m) = refl

  pub drop-drop : (m n : ℕ) (xs : List A) → drop m (drop n xs) ≡ drop (n + m) xs
  drop-drop m zero xs = rw (Prim.Native.Nat.add.zero m)
  drop-drop m (suc n) [] = drop_nil m ∙ sym (drop_nil (suc n + m))
  drop-drop m (suc n) (x ∷ xs) = rw (Prim.Native.Nat.add.suc n m) (drop-drop m n xs)

  pub take-append_le : (n : ℕ) (xs ys : List A) → n ≤ length xs → take n (xs ++ ys) ≡ take n xs
  take-append_le zero xs ys h = refl
  take-append_le (suc n) [] ys h = absurd (omega arith)
  take-append_le (suc n) (x ∷ xs) ys h = rw (take-append_le n xs ys (omega arith))

  pub drop-append_le :
      (n : ℕ) (xs ys : List A) → n ≤ length xs → drop n (xs ++ ys) ≡ drop n xs ++ ys
  drop-append_le zero xs ys h = refl
  drop-append_le (suc n) [] ys h = absurd (omega arith)
  drop-append_le (suc n) (x ∷ xs) ys h = drop-append_le n xs ys (omega arith)

  pub take-append_ge :
      (n : ℕ) (xs ys : List A) → length xs ≤ n → take n (xs ++ ys) ≡ xs ++ take (n - length xs) ys
  take-append_ge n [] ys h = ap (λ (m : ℕ). take m ys) (omega arith)
  take-append_ge zero (x ∷ xs) ys h = absurd (omega arith)
  take-append_ge (suc n) (x ∷ xs) ys h =
      rw (take-append_ge n xs ys (omega arith))
        (ap (λ (m : ℕ). x ∷ (xs ++ take m ys)) (omega arith))

  pub drop-append_ge :
      (n : ℕ) (xs ys : List A) → length xs ≤ n → drop n (xs ++ ys) ≡ drop (n - length xs) ys
  drop-append_ge n [] ys h = ap (λ (m : ℕ). drop m ys) (omega arith)
  drop-append_ge zero (x ∷ xs) ys h = absurd (omega arith)
  drop-append_ge (suc n) (x ∷ xs) ys h =
      drop-append_ge n xs ys (omega arith) ∙ ap (λ (m : ℕ). drop m ys) (omega arith)

  pub take-split :
      (n m : ℕ) (xs ys : List A)
      → m ≡ min n (length xs)
      → take n (xs ++ ys) ≡ take m xs ++ take (n - m) ys
  take-split n m [] ys h = ap₂ (λ (k l : ℕ). take k [] ++ take l ys) (sym e) (omega arith)
    where
      e : m ≡ 0
      e = omega arith
  take-split zero m (x ∷ xs) ys h = rw e
    where
      e : m ≡ 0
      e = omega arith
  take-split (suc n) zero (x ∷ xs) ys h = absurd (omega arith)
  take-split (suc n) (suc m) (x ∷ xs) ys h =
      ap (λ zs. x ∷ zs) (take-split n m xs ys (omega arith))
      ∙ ap (λ (k : ℕ). x ∷ (take m xs ++ take k ys)) (omega arith)

  -- The element at an index is the head of what the index leaves.
  pub get_elem?-drop :
      (i : ℕ) (xs : List A) (y : A) (ys : List A)
      → drop i xs ≡ y ∷ ys
      → (get_elem? xs i ≡ some y) × (drop (suc i) xs ≡ ys)
  get_elem?-drop zero [] y ys h = absurd (cc)
  get_elem?-drop zero (x ∷ xs) y ys h = (cc, cc)
  get_elem?-drop (suc i) [] y ys h = absurd (cc)
  get_elem?-drop (suc i) (x ∷ xs) y ys h = get_elem?-drop i xs y ys h

  pub take_all : (n : ℕ) (xs : List A) → length xs ≤ n → take n xs ≡ xs
  take_all zero [] h = refl
  take_all zero (x ∷ xs) h = absurd (omega arith)
  take_all (suc n) [] h = refl
  take_all (suc n) (x ∷ xs) h = rw (take_all n xs (omega arith))

  pub drop_all : (n : ℕ) (xs : List A) → length xs ≤ n → drop n xs ≡ []
  drop_all zero [] h = refl
  drop_all zero (x ∷ xs) h = absurd (omega arith)
  drop_all (suc n) [] h = refl
  drop_all (suc n) (x ∷ xs) h = drop_all n xs (omega arith)

  pub get_elem?-lt : (xs : List A) (i : ℕ) → i < length xs → (a : A) × (get_elem? xs i ≡ some a)
  get_elem?-lt [] i h = absurd (omega arith)
  get_elem?-lt (x ∷ xs) zero h = (x, refl)
  get_elem?-lt (x ∷ xs) (suc i) h = get_elem?-lt xs i (omega arith)

  pub get_elem?-append_left :
      (xs ys : List A) (i : ℕ) → i < length xs → get_elem? (xs ++ ys) i ≡ get_elem? xs i
  get_elem?-append_left [] ys i h = absurd (omega arith)
  get_elem?-append_left (x ∷ xs) ys zero h = refl
  get_elem?-append_left (x ∷ xs) ys (suc i) h = get_elem?-append_left xs ys i (omega arith)

  pub get_elem?-take :
      (n : ℕ) (xs : List A) (i : ℕ) → i < n → get_elem? (take n xs) i ≡ get_elem? xs i
  get_elem?-take zero xs i h = absurd (omega arith)
  get_elem?-take (suc n) [] i h = refl
  get_elem?-take (suc n) (x ∷ xs) zero h = refl
  get_elem?-take (suc n) (x ∷ xs) (suc i) h = get_elem?-take n xs i (omega arith)

  pub take-suc :
      (n : ℕ) (xs : List A) (a : A)
      → get_elem? xs n ≡ some a
      → take (suc n) xs ≡ take n xs ++ (a ∷ [])
  take-suc n [] a h = absurd (cc)
  take-suc zero (x ∷ xs) a h = cc
  take-suc (suc n) (x ∷ xs) a h = rw (take-suc n xs a h)

  pub concat-append : (xss yss : List (List A)) → concat (xss ++ yss) ≡ concat xss ++ concat yss
  concat-append [] yss = refl
  concat-append (xs ∷ xss) yss =
      rw (concat-append xss yss, append_assoc xs (concat xss) (concat yss))

  pub All-drop {κ} : (P : A → Type κ) (n : ℕ) (xs : List A) → All P xs → All P (drop n xs)
  All-drop P zero xs h = h
  All-drop P (suc n) [] h = h
  All-drop P (suc n) (x ∷ xs) h = All-drop P n xs h.1

  pub All-append {κ} : (P : A → Type κ) (xs ys : List A) → All P xs → All P ys → All P (xs ++ ys)
  All-append P [] ys h k = k
  All-append P (x ∷ xs) ys h k = (h.0, All-append P xs ys h.1 k)

  pub take-take-drop :
      (m n k : ℕ) (xs : List A) → m + n ≡ k → take m xs ++ take n (drop m xs) ≡ take k xs
  take-take-drop zero n k xs h = ap (λ (i : ℕ). take i xs) (omega arith)
  take-take-drop (suc m) n zero xs h = absurd (omega arith)
  take-take-drop (suc m) n (suc k) [] h = take_nil n
    where
      take_nil : (i : ℕ) → take i (drop {A = A} (suc m) []) ≡ take (suc k) []
      take_nil zero = refl
      take_nil (suc i) = refl
  take-take-drop (suc m) n (suc k) (x ∷ xs) h =
      ap (λ zs. x ∷ zs) (take-take-drop m n k xs (omega arith))

  pub All-take {κ} : (P : A → Type κ) (n : ℕ) (xs : List A) → All P xs → All P (take n xs)
  All-take P zero xs h = tt
  All-take P (suc n) [] h = tt
  All-take P (suc n) (x ∷ xs) h = (h.0, All-take P n xs h.1)

  pub get_elem?-drop_add : (i j : ℕ) (xs : List A) → get_elem? (drop i xs) j ≡ get_elem? xs (i + j)
  get_elem?-drop_add zero j xs = ap (get_elem? xs) (omega arith)
  get_elem?-drop_add (suc i) j [] = refl
  get_elem?-drop_add (suc i) j (x ∷ xs) =
      let e : suc i + j ≡ suc (i + j) = omega arith in rw e (get_elem?-drop_add i j xs)

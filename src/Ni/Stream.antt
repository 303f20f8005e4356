-- ===== src/Ni/Stream.antt =====
-- What an NI decoder promises, over the bytes that it has not yet delivered.
use native.Mathlib.Decide.{dec_le}
use open_rfc.Bytes.Words.{be_value}
use open_rfc.Common.{
  length, take, drop, length-drop, Result, ltb, lt→ltb, le→ltb, ok, err, ℕ, zero, suc, ◌+◌, ◌≤◌,
  ◌<◌, ◌≡◌, refl, ◌⊎◌, inl, inr, true, false, List, [], ◌∷◌, ◌++◌, arith,
}
use open_rfc.Ni.{limit_exceeded, out_of_fuel, NiError}

-- Cut frames off the front of a stream, until it ends inside a frame or a frame is too long.
-- The result is what is left, with the payloads or the error.
unfoldable pub split_frames :
    ℕ → ℕ → List (List ℕ) → List ℕ → List ℕ × Result NiError (List (List ℕ))
split_frames zero limit out s = (s, err out_of_fuel)
split_frames (suc fuel) limit out s = elim (ltb (length s) 4) [
  | true ↦ (s, ok out)
  | false ↦ elim (ltb limit (be_value (take 4 s))) [
    | true ↦ (s, err limit_exceeded)
    | false ↦ elim (ltb (length s) (4 + be_value (take 4 s))) [
      | true ↦ (s, ok out)
      | false ↦
          let len = be_value (take 4 s) in
          split_frames fuel limit (out ++ (take len (drop 4 s) ∷ [])) (drop len (drop 4 s))
    ]
  ]
]

-- The branches of one round.
module _ (fuel limit : ℕ) (out : List (List ℕ)) (s : List ℕ) where
  abbrev pub announced : ℕ
  announced = be_value (take 4 s)

  pub split_short : length s < 4 → split_frames (suc fuel) limit out s ≡ (s, ok out)
  unfolding split_frames
  split_short h = rw (lt→ltb _ _ h, split_frames)

  module _ (full : 4 ≤ length s) where
    pub split_over :
        limit < announced → split_frames (suc fuel) limit out s ≡ (s, err limit_exceeded)
    unfolding split_frames
    split_over h = rw (le→ltb _ _ full, lt→ltb _ _ h, split_frames)

    pub split_wait :
        announced ≤ limit
        → length s < 4 + announced
        → split_frames (suc fuel) limit out s ≡ (s, ok out)
    unfolding split_frames
    split_wait h k = rw (le→ltb _ _ full, le→ltb _ _ h, lt→ltb _ _ k, split_frames)

    pub split_frame :
        announced ≤ limit
        → 4 + announced ≤ length s
        → split_frames (suc fuel) limit out s
          ≡ split_frames fuel limit
              (out ++ (take announced (drop 4 s) ∷ []))
              (drop announced (drop 4 s))
    unfolding split_frames
    split_frame h k = rw (le→ltb _ _ full, le→ltb _ _ h, le→ltb _ _ k, split_frames)

-- With more fuel than bytes the cutting ends, with payloads or at a frame beyond the limit.
pub split_total :
    (fuel limit : ℕ) (out : List (List ℕ)) (s : List ℕ)
    → length s < fuel
    → let r = (split_frames fuel limit out s).1 in
      ((ps : List (List ℕ)) × (r ≡ ok ps)) ⊎ (r ≡ err limit_exceeded)
split_total zero limit out s h = absurd (omega arith)
split_total (suc fuel) limit out s h = elim (dec_le 4 (length s)) [
  | no short ↦ rw (split_short fuel limit out s (omega arith)) (inl (out, refl))
  | yes full ↦ elim (dec_le (be_value (take 4 s)) limit) [
    | no over ↦ rw (split_over fuel limit out s full (omega arith)) (inr refl)
    | yes fits ↦ elim (dec_le (4 + be_value (take 4 s)) (length s)) [
      | no wait ↦ rw (split_wait fuel limit out s full fits (omega arith)) (inl (out, refl))
      | yes whole ↦ rw (split_frame fuel limit out s full fits whole) (
          split_total fuel limit _ (drop (be_value (take 4 s)) (drop 4 s))
            (omega (arith, length-drop (be_value (take 4 s)) (drop 4 s), length-drop 4 s)))
    ]
  ]
]

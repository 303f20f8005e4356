-- ===== src/Bytes/Append.antt =====
-- The writer as a list that grows: `written k xs` is a writer that has written `xs` and has room
-- for `k` bytes more. Each write appends its bytes and takes that much of the room.
use open_rfc.Bytes.Words.{be16, be32}
use open_rfc.Common.{
  length, drop, replicate, length-append, length-replicate, take-length_append, drop-length_append,
  drop-drop, max_safe, natural, natural_in_range, integer_in_range, le→ltb, le→leb, ok, err,
  range_error, ℕ, zero, suc, ◌+◌, ◌^◌, ◌≤◌, ◌<◌, ◌≡◌, sym, ap, ◌∙◌, List, [], ◌∷◌, ◌++◌, append-nil,
  append_assoc, arith,
}
use open_rfc.Bytes.Writer.{
  write_int32_be, write_uint16_be, finish_write, write_uint32_be, open_writer, write_uint8,
  write_bytes, ensure_room, Writer, put_at, room,
}

abbrev pub written : ℕ → List ℕ → Writer
written k xs = record { contents = xs ++ replicate k 0; offset = length xs }

drop-replicate : (n k : ℕ) → drop n (replicate (n + k) 0) ≡ replicate {A = ℕ} k 0
drop-replicate zero k = rw (Prim.Native.Nat.add.zero k)
drop-replicate (suc n) k = rw (Prim.Native.Nat.add.suc n k) (drop-replicate n k)

drop_window :
    (n : ℕ) (xs : List ℕ) (k : ℕ) → drop (length xs + n) (xs ++ replicate (n + k) 0) ≡ replicate k 0
drop_window n xs k =
    sym (drop-drop n (length xs) _)
    ∙ (ap (drop n) (drop-length_append xs (replicate (n + k) 0)) ∙ drop-replicate n k)

put_at-written :
    (bs xs : List ℕ) (k : ℕ) → put_at bs (written (length bs + k) xs) ≡ written k (xs ++ bs)
put_at-written bs xs k = rw (
  take-length_append xs (replicate (length bs + k) 0),
  drop_window (length bs) xs k,
  length-append xs bs,
  append_assoc xs bs (replicate k 0),
)

room-written : (k : ℕ) (xs : List ℕ) → room (written k xs) ≡ k
room-written k xs =
    omega (arith, length-append xs (replicate {A = ℕ} k 0), length-replicate {A = ℕ} k 0)

ensure_room-written :
    (n k : ℕ) (xs : List ℕ) → n ≤ max_safe → ensure_room n (written (n + k) xs) ≡ ok tt
ensure_room-written n k xs h = rw (
  room-written (n + k) xs,
  le→leb n max_safe h,
  le→leb 0 n (omega arith),
  le→ltb (n + k) n (omega arith),
)

-- A write that does not fit, or whose value is out of the field's range, throws.
ensure_room_full : (n k : ℕ) (xs : List ℕ) → k < n → ensure_room n (written k xs) ≡ err range_error
ensure_room_full n k xs h = rw (room-written k xs) (ground arith)

module _ (k : ℕ) (xs : List ℕ) where
  -- `write_bytes` appends its bytes to what was written.
  pub write_bytes-written :
      (bs : List ℕ)
      → length bs ≤ max_safe
      → write_bytes bs (written (length bs + k) xs) ≡ ok (written k (xs ++ bs))
  unfolding write_bytes
  write_bytes-written bs h =
      rw (ensure_room-written (length bs) k xs h) (ap ok (put_at-written bs xs k))

  pub write_uint8-written :
      (v : ℕ)
      → v < 256
      → write_uint8 (natural v) (written (1 + k) xs) ≡ ok (written k (xs ++ (v ∷ [])))
  unfolding write_uint8
  write_uint8-written v h =
      rw
        (
          natural_in_range v 0 0xff (omega arith) (omega arith) (omega arith),
          ensure_room-written 1 k xs (omega arith),
        )
        (ap ok (put_at-written (v ∷ []) xs k))

  pub write_uint16_be-written :
      (v : ℕ)
      → v < 2 ^ 16
      → write_uint16_be (natural v) (written (2 + k) xs) ≡ ok (written k (xs ++ be16 v))
  unfolding write_uint16_be
  write_uint16_be-written v h =
      rw
        (
          natural_in_range v 0 0xffff (omega arith) (omega arith) (omega arith),
          ensure_room-written 2 k xs (omega arith),
        )
        (ap ok (put_at-written (be16 v) xs k))

  pub write_uint32_be-written :
      (v : ℕ)
      → v < 2 ^ 32
      → write_uint32_be (natural v) (written (4 + k) xs) ≡ ok (written k (xs ++ be32 v))
  unfolding write_uint32_be
  write_uint32_be-written v h =
      rw
        (
          natural_in_range v 0 0xffff_ffff (omega arith) (omega arith) (omega arith),
          ensure_room-written 4 k xs (omega arith),
        )
        (ap ok (put_at-written (be32 v) xs k))

  pub write_int32_be-written :
      (v : ℕ)
      → v < 2 ^ 31
      → write_int32_be (natural v) (written (4 + k) xs) ≡ ok (written k (xs ++ be32 v))
  unfolding write_int32_be
  write_int32_be-written v h =
      rw
        (
          integer_in_range v 0x7fff_ffff 0x7fff_ffff (omega arith) (omega arith),
          ensure_room-written 4 k xs (omega arith),
        )
        (ap ok (put_at-written (be32 v) xs k))

-- Opening gives room for the whole length, and `finish` returns what was written when it is used up.
pub open_writer-written : (n : ℕ) → n ≤ max_safe → open_writer (natural n) ≡ ok (written n [])
unfolding open_writer
open_writer-written n h = rw (natural_in_range n 0 max_safe (omega arith) (omega arith) h)

pub finish_write-written : (xs : List ℕ) → finish_write (written 0 xs) ≡ ok xs
unfolding finish_write
finish_write-written xs = rw (room-written 0 xs) (ap ok (append-nil xs))

pub finish_write_early :
    (k : ℕ) (xs : List ℕ) → 0 < k → finish_write (written k xs) ≡ err range_error
unfolding finish_write
finish_write_early k xs h = rw (room-written k xs) (ground arith)

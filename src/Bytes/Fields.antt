-- ===== src/Bytes/Fields.antt =====
-- Records of fields: what the writer wrote, the reader reads.
use open_rfc.Common.{
  length, All, length-append, max_safe, natural, Result, ◌>>=◌, ◌>>◌, JsError, ok, ℕ, ◌+◌, ◌^◌, ◌≤◌,
  ◌<◌, ◌≡◌, refl, sym, ap, ◌∙◌, List, [], ◌∷◌, ◌++◌, map, append-nil, append_assoc,
}
use open_rfc.Bytes.Writer.{
  finish_write, open_writer, write_bytes, write_uint32_be, write_uint16_be, write_uint8, Writer,
}
use open_rfc.Bytes.Reader.{
  finish_read, open_reader, read_bytes, read_uint32_be, read_uint16_be, read_uint8, Reader,
}
use open_rfc.Bytes.Append.{
  finish_write-written, open_writer-written, write_bytes-written, write_uint32_be-written,
  write_uint16_be-written, write_uint8-written, written,
}
use open_rfc.Bytes.Cursor.{
  finish_read-reading, read_bytes-reading, read_uint32_be-reading, read_uint16_be-reading,
  read_uint8-reading, reading,
}
use open_rfc.Bytes.Words.{be16, be32}

-- A field of a protocol record.
pub data Field : Type 0 where
  uint8 : ℕ → Field
  uint16_be : ℕ → Field
  uint32_be : ℕ → Field
  raw : List ℕ → Field

abbrev pub write_field : Field → Writer → Result JsError Writer
write_field (uint8 v) w = write_uint8 (natural v) w
write_field (uint16_be v) w = write_uint16_be (natural v) w
write_field (uint32_be v) w = write_uint32_be (natural v) w
write_field (raw bs) w = write_bytes bs w

-- What a reader has to know of a field: its kind and, for raw bytes, the length.
pub data Shape : Type 0 where
  uint8_shape uint16_be_shape uint32_be_shape : Shape
  raw_shape : ℕ → Shape

abbrev pub shape_of : Field → Shape
shape_of (uint8 v) = uint8_shape
shape_of (uint16_be v) = uint16_be_shape
shape_of (uint32_be v) = uint32_be_shape
shape_of (raw bs) = raw_shape (length bs)

abbrev pub read_field : Shape → Reader → Result JsError (Field × Reader)
read_field uint8_shape r = do (x, r') ← read_uint8 r; ok (uint8 x, r')
read_field uint16_be_shape r = do (x, r') ← read_uint16_be r; ok (uint16_be x, r')
read_field uint32_be_shape r = do (x, r') ← read_uint32_be r; ok (uint32_be x, r')
read_field (raw_shape len) r = do (x, r') ← read_bytes (natural len) r; ok (raw x, r')

abbrev pub write_fields : List Field → Writer → Result JsError Writer
write_fields [] w = ok w
write_fields (f ∷ fs) w = write_field f w >>= write_fields fs

abbrev pub read_fields : List Shape → Reader → Result JsError (List Field × Reader)
read_fields [] r = ok ([], r)
read_fields (f ∷ fs) r = do
  (x, r') ← read_field f r
  (xs, r'') ← read_fields fs r'
  ok (x ∷ xs, r'')

-- The bytes of a field.
abbrev pub field_bytes : Field → List ℕ
field_bytes (uint8 v) = v ∷ []
field_bytes (uint16_be v) = be16 v
field_bytes (uint32_be v) = be32 v
field_bytes (raw bs) = bs

abbrev pub fields_bytes : List Field → List ℕ
fields_bytes [] = []
fields_bytes (f ∷ fs) = field_bytes f ++ fields_bytes fs

abbrev pub ValidField : Field → Type 0
ValidField (uint8 v) = v < 256
ValidField (uint16_be v) = v < 2 ^ 16
ValidField (uint32_be v) = v < 2 ^ 32
ValidField (raw bs) = length bs ≤ max_safe

write_field-written :
    (f : Field) (k : ℕ) (xs : List ℕ)
    → ValidField f
    → write_field f (written (length (field_bytes f) + k) xs) ≡ ok (written k (xs ++ field_bytes f))
write_field-written (uint8 v) k xs h = write_uint8-written k xs v h
write_field-written (uint16_be v) k xs h = write_uint16_be-written k xs v h
write_field-written (uint32_be v) k xs h = write_uint32_be-written k xs v h
write_field-written (raw bs) k xs h = write_bytes-written k xs bs h

write_fields-written :
    (fs : List Field) (xs : List ℕ)
    → All ValidField fs
    → write_fields fs (written (length (fields_bytes fs)) xs)
      ≡ ok (written 0 (xs ++ fields_bytes fs))
write_fields-written [] xs h = ap (λ t. ok (written 0 t)) (sym (append-nil xs))
write_fields-written (f ∷ fs) xs h =
    rw
      (
        length-append (field_bytes f) (fields_bytes fs),
        write_field-written f (length (fields_bytes fs)) xs h.0,
      )
      (write_fields-written fs (xs ++ field_bytes f) h.1
        ∙ ap (λ t. ok (written 0 t)) (append_assoc xs (field_bytes f) (fields_bytes fs)))

read_field-reading :
    (f : Field) (xs ys : List ℕ)
    → ValidField f
    → read_field (shape_of f) (reading xs (field_bytes f ++ ys))
      ≡ ok (f, reading (xs ++ field_bytes f) ys)
read_field-reading (uint8 v) xs ys h = rw (read_uint8-reading xs v ys) refl
read_field-reading (uint16_be v) xs ys h = rw (read_uint16_be-reading xs v ys) refl
read_field-reading (uint32_be v) xs ys h = rw (read_uint32_be-reading xs v ys) refl
read_field-reading (raw bs) xs ys h = rw (read_bytes-reading xs bs ys h) refl

read_fields-reading :
    (fs : List Field) (xs : List ℕ)
    → All ValidField fs
    → read_fields (map shape_of fs) (reading xs (fields_bytes fs))
      ≡ ok (fs, reading (xs ++ fields_bytes fs) [])
read_fields-reading [] xs h = ap (λ t. ok ([], reading t [])) (sym (append-nil xs))
read_fields-reading (f ∷ fs) xs h =
    rw
      (
        read_field-reading f xs (fields_bytes fs) h.0,
        read_fields-reading fs (xs ++ field_bytes f) h.1,
        append_assoc xs (field_bytes f) (fields_bytes fs),
      )
      refl

-- A writer opened for the length of a record takes its fields and is full then, and a reader of the
-- bytes that knows the kinds of the fields reads the same fields and is at the end then. The values
-- fit their fields, and the lengths are safe integers.
pub read_fields-write_fields :
    (fs : List Field)
    → All ValidField fs
    → length (fields_bytes fs) ≤ max_safe
    → (bytes : List ℕ) × ((open_writer (natural (length (fields_bytes fs))) >>= λ w.
          write_fields fs w >>= finish_write)
        ≡ ok bytes)
      × ((read_fields (map shape_of fs) (open_reader bytes) >>= λ p. finish_read (p.1) >> ok (p.0))
          ≡ ok fs)
unfolding open_reader
read_fields-write_fields fs v n = (
  fields_bytes fs,
  rw (open_writer-written (length (fields_bytes fs)) n, write_fields-written fs [] v)
      (finish_write-written (fields_bytes fs)),
  rw (read_fields-reading fs [] v, finish_read-reading (fields_bytes fs)) refl,
)

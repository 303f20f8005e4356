-- ===== src/Bytes/Tests.antt =====
-- A run of the writer and the reader on a record of three fields.
use open_rfc.Common.{
  natural, ◌>>=◌, ◌>>◌, ok, err, range_error, ℕ, ◌≡◌, refl, List, [], ◌∷◌, map, arith,
}
use open_rfc.Bytes.Writer.{open_writer, finish_write}
use open_rfc.Bytes.Reader.{read_uint32_be, open_reader, finish_read}
use open_rfc.Bytes.Fields.{
  shape_of, read_fields, write_fields, read_fields-write_fields, Field, uint8, uint16_be, raw,
}

abbrev record_fields : List Field
record_fields = uint8 7 ∷ uint16_be 515 ∷ raw (1 ∷ 2 ∷ 3 ∷ []) ∷ []

read_fields-write_fields_example :
    (bytes : List ℕ) × ((open_writer (natural 6) >>= λ w.
    write_fields record_fields w >>= finish_write)
      ≡ ok bytes)
    × ((read_fields (map shape_of record_fields) (open_reader bytes) >>= λ p.
          finish_read (p.1) >> ok (p.0))
        ≡ ok record_fields)
read_fields-write_fields_example =
    read_fields-write_fields record_fields (omega arith, (omega arith, (omega arith, tt)))
      (omega arith)

short_read : read_uint32_be (open_reader (1 ∷ 2 ∷ [])) ≡ err range_error
unfolding read_uint32_be open_reader
short_read = refl

-- ===== src/Worm/Record/RoundTrip.antt =====
-- The record that is read back from its bytes, and the bytes it takes.
use hyperkitty_constraint_ds.Prelude.{
  ℕ, ◌+◌, ◌≡◌, ◌≤◌, refl, ap, ◌∙◌, sym, [], ◌++◌, append-nil, append_assoc, length, length-append,
  take, ltb, ltb-ge, false, arith,
}
use hyperkitty_constraint_ds.Core.{Result.ok}
use hyperkitty_constraint_ds.Worm.Bytes.{Bytes, slice, slice-first, slice-append}
use hyperkitty_constraint_ds.Worm.Header.{
  WormHeader, IsHeader, header_size, record_size, payload_size,
}
use hyperkitty_constraint_ds.Worm.Header
use hyperkitty_constraint_ds.Worm.Header.RoundTrip
use hyperkitty_constraint_ds.Worm.Header.Slices
use hyperkitty_constraint_ds.Worm.Record.{
  WormRecord, IsRecord, to_bytes, from_bytes, read_payload, total_size,
}

-- The bytes are as many as the header says.
pub length-to_bytes : (r : WormRecord) → IsRecord r → length (to_bytes r) ≡ total_size r
unfolding to_bytes total_size record_size payload_size
length-to_bytes r v =
    let payload = r.event_type ++ (r.data_bytes ++ r.metadata) in
    omega (
      arith,
      length-append (Header.to_bytes r.header) payload,
      length-append r.event_type (r.data_bytes ++ r.metadata),
      length-append r.data_bytes r.metadata,
      Slices.length-to_bytes r.header v.header_fits,
      v.length_event,
      v.length_data,
      v.length_metadata,
    )

-- The parts of a record's bytes, with others behind.
to_bytes-append :
    (r : WormRecord) (rest : Bytes)
    → to_bytes r ++ rest
      ≡ Header.to_bytes r.header ++ (r.event_type ++ (r.data_bytes ++ (r.metadata ++ rest)))
unfolding to_bytes
to_bytes-append r rest = simp append_assoc

module _ (r : WormRecord) (v : IsRecord r) (rest : Bytes) where
  length_header : length (Header.to_bytes r.header) ≡ header_size
  length_header = Slices.length-to_bytes r.header v.header_fits

  slice_header : slice 0 header_size (to_bytes r ++ rest) ≡ Header.to_bytes r.header
  slice_header =
      ap (slice 0 header_size) (to_bytes-append r rest)
      ∙ slice-first (Header.to_bytes r.header) _ header_size length_header

  skip_header :
      (m n o : ℕ)
      → m ≡ header_size + o
      → slice m n (to_bytes r ++ rest)
        ≡ slice o n (r.event_type ++ (r.data_bytes ++ (r.metadata ++ rest)))
  skip_header m n o e =
      ap (slice m n) (to_bytes-append r rest)
      ∙ slice-append m n o (Header.to_bytes r.header) _ (omega (arith, length_header))

  skip_event :
      (m n o : ℕ)
      → m ≡ header_size + r.header.event_length + o
      → slice m n (to_bytes r ++ rest) ≡ slice o n (r.data_bytes ++ (r.metadata ++ rest))
  skip_event m n o e =
      skip_header m n (r.header.event_length + o) (omega arith)
      ∙ slice-append (r.header.event_length + o) n o r.event_type _ (omega (arith, v.length_event))

  slice_event : slice header_size r.header.event_length (to_bytes r ++ rest) ≡ r.event_type
  slice_event =
      skip_header header_size r.header.event_length 0 refl
      ∙ slice-first r.event_type _ r.header.event_length v.length_event

  slice_data :
      slice (header_size + r.header.event_length) r.header.data_length (to_bytes r ++ rest)
      ≡ r.data_bytes
  slice_data =
      skip_event _ r.header.data_length 0 (omega arith)
      ∙ slice-first r.data_bytes _ r.header.data_length v.length_data

  slice_metadata :
      slice
        (header_size + r.header.event_length + r.header.data_length)
        r.header.metadata_length
        (to_bytes r ++ rest)
      ≡ r.metadata
  slice_metadata =
      skip_event _ r.header.metadata_length (r.header.data_length + 0) (omega arith)
      ∙ (slice-append _ r.header.metadata_length 0 r.data_bytes _ (omega (arith, v.length_data))
          ∙ slice-first r.metadata rest r.header.metadata_length v.length_metadata)

  length-append-to_bytes : total_size r ≤ length (to_bytes r ++ rest)
  length-append-to_bytes = omega (arith, length-append (to_bytes r) rest, length-to_bytes r v)

  read_payload-to_bytes : read_payload (to_bytes r ++ rest) r.header ≡ ok r
  unfolding read_payload total_size record_size payload_size
  read_payload-to_bytes =
      rw (slice_event, slice_data, slice_metadata) (ground (arith, length-append-to_bytes))

  long_enough : ltb (length (to_bytes r ++ rest)) header_size ≡ false
  unfolding total_size record_size
  long_enough = ltb-ge _ header_size (omega (arith, length-append-to_bytes))

-- A well-formed record, with anything behind it, is read back.
pub from_bytes-to_bytes_lem :
    (r : WormRecord) (rest : Bytes) → IsRecord r → from_bytes (to_bytes r ++ rest) ≡ ok r
unfolding from_bytes slice
from_bytes-to_bytes_lem r rest v =
    let parsed : Header.from_bytes (take header_size (to_bytes r ++ rest)) ≡ ok r.header =
      ap Header.from_bytes (slice_header r v rest ∙ sym (append-nil (Header.to_bytes r.header)))
      ∙ RoundTrip.from_bytes-to_bytes r.header [] v.header_fits in
    rw (long_enough r v rest, parsed) (read_payload-to_bytes r v rest)

-- Different well-formed records have different bytes.
pub to_bytes-injective :
    (r s : WormRecord) → IsRecord r → IsRecord s → to_bytes r ≡ to_bytes s → r ≡ s
to_bytes-injective r s v w e =
    let read : ok r ≡ ok s =
      sym (from_bytes-to_bytes_lem r [] v)
      ∙ (ap (λ b. from_bytes (b ++ [])) e ∙ from_bytes-to_bytes_lem s [] w) in
    cc

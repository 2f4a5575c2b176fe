-- ===== src/Worm/Record.antt =====
-- rust/crates/hyperkitty-worm/src/record.rs: a header and the payload behind it.
pub mod RoundTrip
use hyperkitty_constraint_ds.Prelude.{
  ℕ, ◌+◌, ◌≡◌, List, [], ◌∷◌, ◌++◌, length, take, ltb, if◌then◌else◌,
}
use hyperkitty_constraint_ds.Core.{Result, Result.ok, Result.err, Error.storage_error, num, ◌>>=◌}
use hyperkitty_constraint_ds.Worm.Bytes.{Bytes, slice}
use hyperkitty_constraint_ds.Worm.Header.{WormHeader, IsHeader, header_size, record_size}
use hyperkitty_constraint_ds.Worm.Header

pub record WormRecord : Type 0 where
  pub header : WormHeader
  pub event_type : Bytes
  pub data_bytes : Bytes
  pub metadata : Bytes

unfoldable pub new : WormHeader → Bytes → Bytes → Bytes → WormRecord
new h event_type data_bytes metadata = record {
  header = h;
  event_type = event_type;
  data_bytes = data_bytes;
  metadata = metadata;
}

unfoldable pub total_size : WormRecord → ℕ
unfolding record_size
total_size r = record_size r.header

unfoldable pub to_bytes : WormRecord → Bytes
unfolding Header.to_bytes
to_bytes r = Header.to_bytes r.header ++ (r.event_type ++ (r.data_bytes ++ r.metadata))

-- The payload, cut at the lengths of the header.
unfoldable pub read_payload : Bytes → WormHeader → Result WormRecord
unfolding slice
read_payload bytes h =
    let expected_len = header_size + h.event_length + h.data_length + h.metadata_length in
    if ltb (length bytes) expected_len
    then err (
        storage_error (record {
          format = "record payload incomplete: {} < {}";
          args = num (length bytes) ∷ num expected_len ∷ [];
        }))
    else ok (record {
      header = h;
      event_type = slice header_size h.event_length bytes;
      data_bytes = slice (header_size + h.event_length) h.data_length bytes;
      metadata = slice (header_size + h.event_length + h.data_length) h.metadata_length bytes;
    })

unfoldable pub from_bytes : Bytes → Result WormRecord
unfolding Header.from_bytes read_payload
from_bytes bytes =
    let parsed = Header.from_bytes (take header_size bytes) >>= read_payload bytes in
    if ltb (length bytes) header_size
    then err (
        storage_error (record {
          format = "record too short: {} < {}";
          args = num (length bytes) ∷ num header_size ∷ [];
        }))
    else parsed

-- A record whose header fits its types and counts the payload.
pub record IsRecord (r : WormRecord) : Type 0 where
  pub header_fits : IsHeader r.header
  pub length_event : length r.event_type ≡ r.header.event_length
  pub length_data : length r.data_bytes ≡ r.header.data_length
  pub length_metadata : length r.metadata ≡ r.header.metadata_length

-- ===== src/Worm/Header.antt =====
-- rust/crates/hyperkitty-worm/src/header.rs: the fixed-size header and its big-endian form. An array
-- of bytes is a list of numbers; `IsHeader` states the sizes that the Rust types give.
pub mod RoundTrip
pub mod Slices
use hyperkitty_constraint_ds.Prelude.{
  ℕ, ◌+◌, ◌<◌, ◌≡◌, not, List, [], ◌∷◌, ◌++◌, length, ltb, ◌==◌, if◌then◌else◌, text_eq, replicate,
}
use hyperkitty_constraint_ds.Core.{Result, Result.ok, Result.err, Error.storage_error, literal, num}
use hyperkitty_constraint_ds.Worm.Bytes.{Bytes, limit, to_be_bytes, from_be_bytes, slice}

abbrev pub magic_bytes : Bytes
magic_bytes = 0x57 ∷ 0x4F ∷ 0x52 ∷ 0x4D ∷ []

abbrev pub current_version : ℕ
current_version = 1

abbrev pub header_size : ℕ
header_size = 152

abbrev pub hash_size : ℕ
hash_size = 32

abbrev pub signature_size : ℕ
signature_size = 64

unfoldable pub genesis_hash : Bytes
genesis_hash = replicate hash_size 0

pub record WormHeader : Type 0 where
  pub magic : Bytes
  pub version : ℕ
  pub flags : ℕ
  pub event_length : ℕ
  pub data_length : ℕ
  pub metadata_length : ℕ
  pub timestamp_ns : ℕ
  pub previous_hash : Bytes
  pub content_hash : Bytes
  pub signature : Bytes

unfoldable pub new : WormHeader
unfolding genesis_hash
new = record {
  magic = magic_bytes;
  version = current_version;
  flags = 0;
  event_length = 0;
  data_length = 0;
  metadata_length = 0;
  timestamp_ns = 0;
  previous_hash = genesis_hash;
  content_hash = genesis_hash;
  signature = replicate signature_size 0;
}

-- The lengths are below `2 ^ 33 + 2 ^ 16`, so that a 64-bit `usize` does not wrap.
unfoldable pub payload_size : WormHeader → ℕ
payload_size h = h.event_length + h.data_length + h.metadata_length

unfoldable pub record_size : WormHeader → ℕ
unfolding payload_size
record_size h = header_size + payload_size h

unfoldable pub to_bytes : WormHeader → Bytes
to_bytes h =
    h.magic
    ++ ((h.version ∷ [])
        ++ ((h.flags ∷ [])
            ++ (to_be_bytes 2 h.event_length
                ++ (to_be_bytes 4 h.data_length
                    ++ (to_be_bytes 4 h.metadata_length
                        ++ (to_be_bytes 8 h.timestamp_ns
                            ++ (h.previous_hash ++ (h.content_hash ++ h.signature))))))))

-- The fields behind the version, at the running offsets.
unfoldable pub read_fields : Bytes → WormHeader
read_fields bytes = record {
  magic = slice 0 4 bytes;
  version = from_be_bytes (slice 4 1 bytes);
  flags = from_be_bytes (slice 5 1 bytes);
  event_length = from_be_bytes (slice 6 2 bytes);
  data_length = from_be_bytes (slice 8 4 bytes);
  metadata_length = from_be_bytes (slice 12 4 bytes);
  timestamp_ns = from_be_bytes (slice 16 8 bytes);
  previous_hash = slice 24 hash_size bytes;
  content_hash = slice 56 hash_size bytes;
  signature = slice 88 signature_size bytes;
}

-- The checks, of a byte count and the fields read.
unfoldable pub check_header : ℕ → WormHeader → Result WormHeader
unfolding text_eq
check_header size h =
    if ltb size header_size
    then err (
        storage_error
          (record { format = "header too short: {} < {}"; args = num size ∷ num header_size ∷ [] }))
    else (if not (text_eq h.magic magic_bytes)
        then err (storage_error (literal "invalid magic bytes"))
        else (if not (h.version == current_version)
            then err (
                storage_error
                  (record { format = "unsupported version: {}"; args = num h.version ∷ [] }))
            else ok h))

unfoldable pub from_bytes : Bytes → Result WormHeader
unfolding read_fields check_header
from_bytes bytes = check_header (length bytes) (read_fields bytes)

-- A header of the current format whose fields fit their types.
pub record IsHeader (h : WormHeader) : Type 0 where
  pub is_magic : h.magic ≡ magic_bytes
  pub is_version : h.version ≡ current_version
  pub fits_flags : h.flags < limit 1
  pub fits_event : h.event_length < limit 2
  pub fits_data : h.data_length < limit 4
  pub fits_metadata : h.metadata_length < limit 4
  pub fits_timestamp : h.timestamp_ns < limit 8
  pub length_previous : length h.previous_hash ≡ hash_size
  pub length_content : length h.content_hash ≡ hash_size
  pub length_signature : length h.signature ≡ signature_size

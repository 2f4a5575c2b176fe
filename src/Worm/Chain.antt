-- ===== src/Worm/Chain.antt =====
-- rust/crates/hyperkitty-worm/src/lib.rs: the chain of records. The hash is the crate `sha2`'s
-- SHA-256, a parameter. `append` returns `Ok(())` on every path, so that its value is the new chain.
pub mod Verified
pub mod Tamper
use hyperkitty_constraint_ds.Prelude.{
  ℕ, ◌%◌, ◌^◌, ◌≡◌, Bool, true, not, Option, none, some, List, [], ◌∷◌, ◌++◌, length, ◌==◌,
  if◌then◌else◌, text_eq,
}
use hyperkitty_constraint_ds.Core.{Result, Result.ok, Result.err, Error.tamper_detected}
use hyperkitty_constraint_ds.Worm.Bytes.{Bytes}
use hyperkitty_constraint_ds.Worm.Header.{WormHeader, genesis_hash}
use hyperkitty_constraint_ds.Worm.Header
use hyperkitty_constraint_ds.Worm.Record.{WormRecord}
use hyperkitty_constraint_ds.Worm.Record

pub record Chain : Type 0 where
  pub records : List WormRecord

unfoldable pub new : Chain
new = record { records = [] }

unfoldable pub len : Chain → ℕ
len c = length c.records

unfoldable pub is_empty : Chain → Bool
is_empty c = length c.records == 0

-- `slice::last`
unfoldable pub last : List WormRecord → Option WormRecord
last [] = none
last (r ∷ []) = some r
last (r ∷ s ∷ l) = last (s ∷ l)

unfoldable pub content : Bytes → Bytes → Bytes → Bytes
content event_type data_bytes metadata = event_type ++ (data_bytes ++ metadata)

module _ (hash_sha256 : Bytes → Bytes) where
  -- The previous hash of a record behind the last one.
  unfoldable pub link : Option WormRecord → Bytes
  unfolding genesis_hash Record.to_bytes
  link none = genesis_hash
  link (some r) = hash_sha256 (Record.to_bytes r)

  unfoldable pub next_record : Chain → Bytes → Bytes → Bytes → ℕ → WormRecord
  unfolding Header.new last link content
  next_record c event_type data_bytes metadata timestamp_ns = record {
    header = record Header.new {
      event_length = length event_type % 2 ^ 16;
      data_length = length data_bytes % 2 ^ 32;
      metadata_length = length metadata % 2 ^ 32;
      timestamp_ns = timestamp_ns;
      previous_hash = link (last c.records);
      content_hash = hash_sha256 (content event_type data_bytes metadata);
    };
    event_type = event_type;
    data_bytes = data_bytes;
    metadata = metadata;
  }

  unfoldable pub append : Chain → Bytes → Bytes → Bytes → ℕ → Chain
  unfolding next_record
  append c event_type data_bytes metadata timestamp_ns = record {
    records = c.records ++ (next_record c event_type data_bytes metadata timestamp_ns ∷ []);
  }

  unfoldable pub verify_from : Bytes → List WormRecord → Result Bool
  unfolding content text_eq Record.to_bytes
  verify_from prev_hash [] = ok true
  verify_from prev_hash (r ∷ l) =
      let rest = verify_from (hash_sha256 (Record.to_bytes r)) l in
      if not (text_eq r.header.previous_hash prev_hash)
      then err tamper_detected
      else (if not (
            text_eq (hash_sha256 (content r.event_type r.data_bytes r.metadata))
              r.header.content_hash)
          then err tamper_detected
          else rest)

  unfoldable pub verify : Chain → Result Bool
  unfolding verify_from genesis_hash
  verify c = verify_from genesis_hash c.records

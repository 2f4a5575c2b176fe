-- ===== src/Examples/Worm.antt =====
-- Records and chains with a short stand-in for the hash.
use hyperkitty_constraint_ds.Prelude.{
  ◌%◌, ◌≡◌, ◌↔◌, ◌⊎◌, refl, true, [], ◌∷◌, ◌++◌, length, replicate, All, arith,
}
use hyperkitty_constraint_ds.Core.{Result.ok}
use hyperkitty_constraint_ds.Worm.Bytes.{Bytes, limit}
use hyperkitty_constraint_ds.Worm.Header.{genesis_hash, to_bytes, from_bytes}
use hyperkitty_constraint_ds.Worm.Header.RoundTrip.{from_bytes-to_bytes}
use hyperkitty_constraint_ds.Worm.Record.{WormRecord, IsRecord}
use hyperkitty_constraint_ds.Worm.Record
use hyperkitty_constraint_ds.Worm.Record.RoundTrip.{from_bytes-to_bytes_lem}
use hyperkitty_constraint_ds.Worm.Chain.{Chain, append, next_record, verify}
use hyperkitty_constraint_ds.Worm.Chain.Verified.{
  Linked, verify_iff, verify-append, next_record-IsRecord,
}
use hyperkitty_constraint_ds.Worm.Chain.Tamper.{Collision, verify-tamper}

abbrev empty : Chain
empty = record { records = [] }

-- A stand-in of the right size: the count of the bytes, modulo 256, in each place.
abbrev toy_hash : Bytes → Bytes
toy_hash b = replicate 32 (length b % 256)

toy_hash-fits : (b : Bytes) → length (toy_hash b) ≡ 32
toy_hash-fits b = refl

abbrev first : WormRecord
first = next_record toy_hash empty (1 ∷ 2 ∷ []) (3 ∷ []) [] 77

abbrev chain : Chain
chain = append toy_hash empty (1 ∷ 2 ∷ []) (3 ∷ []) [] 77

first-IsRecord : IsRecord first
unfolding limit
first-IsRecord =
    next_record-IsRecord toy_hash toy_hash-fits empty (1 ∷ 2 ∷ []) (3 ∷ []) [] 77 (omega arith)
      (omega arith) (omega arith) (omega arith)

from_bytes-to_bytes_example : from_bytes (to_bytes first.header ++ (9 ∷ [])) ≡ ok first.header
from_bytes-to_bytes_example = from_bytes-to_bytes first.header (9 ∷ []) first-IsRecord.header_fits

from_bytes-to_bytes_lem_example : Record.from_bytes (Record.to_bytes first ++ (9 ∷ [])) ≡ ok first
from_bytes-to_bytes_lem_example = from_bytes-to_bytes_lem first (9 ∷ []) first-IsRecord

verify_iff_example : verify toy_hash chain ≡ ok true ↔ Linked toy_hash genesis_hash chain.records
verify_iff_example = verify_iff toy_hash chain

empty_verifies : verify toy_hash empty ≡ ok true
unfolding verify
empty_verifies = refl

chain_verifies : verify toy_hash chain ≡ ok true
chain_verifies = verify-append toy_hash empty (1 ∷ 2 ∷ []) (3 ∷ []) [] 77 empty_verifies

verify-append_example : verify toy_hash (append toy_hash chain (4 ∷ []) [] [] 78) ≡ ok true
verify-append_example = verify-append toy_hash chain (4 ∷ []) [] [] 78 chain_verifies

next_record-IsRecord_example : IsRecord (next_record toy_hash chain (4 ∷ []) [] [] 78)
unfolding limit
next_record-IsRecord_example =
    next_record-IsRecord toy_hash toy_hash-fits chain (4 ∷ []) [] [] 78 (omega arith) (omega arith)
      (omega arith) (omega arith)

chain-AllRecords : All IsRecord chain.records
unfolding append
chain-AllRecords = (first-IsRecord, tt)

verify-tamper_example : (chain.records ≡ chain.records) ⊎ Collision toy_hash
verify-tamper_example =
    verify-tamper toy_hash chain chain chain-AllRecords chain-AllRecords chain_verifies
      chain_verifies refl refl

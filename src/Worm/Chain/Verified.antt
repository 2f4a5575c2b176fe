-- ===== src/Worm/Chain/Verified.antt =====
-- What a verified chain is, and the records that `append` adds.
use hyperkitty_constraint_ds.Prelude.{
  ℕ, ◌<◌, ◌≡◌, ◌↔◌, refl, ap, ◌∙◌, true, Option, none, some, List, [], ◌∷◌, ◌++◌, length, text_eq,
  text_eq_refl, text_eq-eq, arith,
}
use hyperkitty_constraint_ds.Core.{Result.ok}
use hyperkitty_constraint_ds.Worm.Bytes.{Bytes, limit}
use hyperkitty_constraint_ds.Worm.Header.{WormHeader, IsHeader, genesis_hash, hash_size}
use hyperkitty_constraint_ds.Worm.Header
use hyperkitty_constraint_ds.Worm.Record.{WormRecord, IsRecord}
use hyperkitty_constraint_ds.Worm.Record
use hyperkitty_constraint_ds.Worm.Chain.{
  Chain, last, link, content, next_record, append, verify_from, verify,
}

module _ (hash_sha256 : Bytes → Bytes) where
  -- Each record holds the hash of the one before it, and the hash of its payload.
  unfoldable pub Linked : Bytes → List WormRecord → Type 0
  Linked prev [] = Unit
  Linked prev (r ∷ l) =
      (r.header.previous_hash ≡ prev)
      × (hash_sha256 (content r.event_type r.data_bytes r.metadata) ≡ r.header.content_hash)
      × Linked (hash_sha256 (Record.to_bytes r)) l

  Linked-verify_from :
      (prev : Bytes) (l : List WormRecord)
      → Linked prev l
      → verify_from hash_sha256 prev l ≡ ok true
  unfolding Linked verify_from
  Linked-verify_from prev [] v = refl
  Linked-verify_from prev (r ∷ l) (p, c, v) =
      let previous : text_eq r.header.previous_hash prev ≡ true =
        ap (λ b. text_eq b prev) p ∙ text_eq_refl prev in
      let payload : text_eq (hash_sha256 (content r.event_type r.data_bytes r.metadata))
            r.header.content_hash
          ≡ true =
        ap (λ b. text_eq b r.header.content_hash) c ∙ text_eq_refl r.header.content_hash in
      rw (previous, payload) (Linked-verify_from (hash_sha256 (Record.to_bytes r)) l v)

  pub verify_from-Linked :
      (prev : Bytes) (l : List WormRecord)
      → verify_from hash_sha256 prev l ≡ ok true
      → Linked prev l
  unfolding Linked verify_from
  verify_from-Linked prev [] e = tt
  verify_from-Linked prev (r ∷ l) e =
      let tail : verify_from hash_sha256 (hash_sha256 (Record.to_bytes r)) l ≡ ok true =
        ground arith in
      (
        text_eq-eq _ _ (ground arith),
        text_eq-eq _ _ (ground arith),
        verify_from-Linked (hash_sha256 (Record.to_bytes r)) l tail,
      )

  -- Verification accepts exactly the chains that are linked from the all-zero hash on.
  pub verify_iff : (c : Chain) → verify hash_sha256 c ≡ ok true ↔ Linked genesis_hash c.records
  unfolding verify
  verify_iff c =
      (verify_from-Linked genesis_hash c.records, Linked-verify_from genesis_hash c.records)

  -- The hash that a record behind the list must hold.
  unfoldable pub end_hash : Bytes → List WormRecord → Bytes
  end_hash prev [] = prev
  end_hash prev (r ∷ l) = end_hash (hash_sha256 (Record.to_bytes r)) l

  link-last :
      (prev : Bytes) (r : WormRecord) (l : List WormRecord)
      → link hash_sha256 (last (r ∷ l)) ≡ end_hash prev (r ∷ l)
  unfolding link last end_hash
  link-last prev r [] = refl
  link-last prev r (s ∷ l) = link-last (hash_sha256 (Record.to_bytes r)) s l

  pub link-end_hash : (l : List WormRecord) → link hash_sha256 (last l) ≡ end_hash genesis_hash l
  unfolding link last end_hash
  link-end_hash [] = refl
  link-end_hash (r ∷ l) = link-last genesis_hash r l

  Linked-append :
      (prev : Bytes) (l : List WormRecord) (r : WormRecord)
      → Linked prev l
      → r.header.previous_hash ≡ end_hash prev l
      → hash_sha256 (content r.event_type r.data_bytes r.metadata) ≡ r.header.content_hash
      → Linked prev (l ++ (r ∷ []))
  unfolding Linked end_hash
  Linked-append prev [] r v p c = (p, c, tt)
  Linked-append prev (x ∷ l) r (q, d, v) p c =
      (q, d, Linked-append (hash_sha256 (Record.to_bytes x)) l r v p c)

  -- A chain that verifies still does after `append`.
  pub verify-append :
      (c : Chain) (event_type data_bytes metadata : Bytes) (timestamp_ns : ℕ)
      → verify hash_sha256 c ≡ ok true
      → verify hash_sha256 (append hash_sha256 c event_type data_bytes metadata timestamp_ns)
        ≡ ok true
  unfolding append next_record
  verify-append c event_type data_bytes metadata timestamp_ns e =
      let r = next_record hash_sha256 c event_type data_bytes metadata timestamp_ns in
      (verify_iff (record { records = c.records ++ (r ∷ []) })).1
        (Linked-append genesis_hash c.records r ((verify_iff c).0 e) (link-end_hash c.records) refl)

  length-link :
      ((b : Bytes) → length (hash_sha256 b) ≡ hash_size)
      → (o : Option WormRecord) → length (link hash_sha256 o) ≡ hash_size
  unfolding link genesis_hash
  length-link fits none = refl
  length-link fits (some r) = fits (Record.to_bytes r)

  -- For a hash of 32 bytes, the record that `append` adds is well formed when no length and no
  -- timestamp overflows its field.
  pub next_record-IsRecord :
      ((b : Bytes) → length (hash_sha256 b) ≡ hash_size)
      → (c : Chain) (event_type data_bytes metadata : Bytes) (timestamp_ns : ℕ)
      → length event_type < limit 2
      → length data_bytes < limit 4
      → length metadata < limit 4
      → timestamp_ns < limit 8
      → IsRecord (next_record hash_sha256 c event_type data_bytes metadata timestamp_ns)
  unfolding next_record limit Header.new
  next_record-IsRecord fits c event_type data_bytes metadata timestamp_ns e d m t = record {
    header_fits = record {
      is_magic = refl;
      is_version = refl;
      fits_flags = omega arith;
      fits_event = omega arith;
      fits_data = omega arith;
      fits_metadata = omega arith;
      fits_timestamp = t;
      length_previous = length-link fits (last c.records);
      length_content = fits (content event_type data_bytes metadata);
      length_signature = refl;
    };
    length_event = omega arith;
    length_data = omega arith;
    length_metadata = omega arith;
  }

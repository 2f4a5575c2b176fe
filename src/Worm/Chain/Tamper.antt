-- ===== src/Worm/Chain/Tamper.antt =====
-- What a change of the past of a chain takes.
use hyperkitty_constraint_ds.Prelude.{
  ◌≡◌, ◌≢◌, ◌⊎◌, inl, inr, refl, sym, ap, ◌∙◌, true, List, [], ◌∷◌, length, All, Bool-cases,
  text_eq, text_eq-eq, text_eq-ne, arith,
}
use hyperkitty_constraint_ds.Core.{Result.ok}
use hyperkitty_constraint_ds.Worm.Bytes.{Bytes}
use hyperkitty_constraint_ds.Worm.Header.{genesis_hash}
use hyperkitty_constraint_ds.Worm.Record.{WormRecord, IsRecord}
use hyperkitty_constraint_ds.Worm.Record
use hyperkitty_constraint_ds.Worm.Record.RoundTrip.{to_bytes-injective}
use hyperkitty_constraint_ds.Worm.Chain.{Chain, last, link, verify}
use hyperkitty_constraint_ds.Worm.Chain.Verified.{Linked, verify_iff, end_hash, link-end_hash}

cons_eq : {r s : WormRecord} {l m : List WormRecord} → r ≡ s → l ≡ m → (r ∷ l) ≡ (s ∷ m)
cons_eq e t = cc

module _ (hash_sha256 : Bytes → Bytes) where
  -- Two byte strings of one hash.
  unfoldable pub Collision : Type 0
  Collision = (a : Bytes) × (b : Bytes) × (a ≢ b) × (hash_sha256 a ≡ hash_sha256 b)

  same_bytes : (a b : Bytes) → hash_sha256 a ≡ hash_sha256 b → (a ≡ b) ⊎ Collision
  unfolding Collision
  same_bytes a b h = elim (Bool-cases (text_eq a b)) [
    | inl e ↦ inl (text_eq-eq a b e)
    | inr e ↦ inr (a, b, text_eq-ne a b e, h)
  ]

  Linked-end_hash :
      (p q : Bytes) (l m : List WormRecord)
      → length l ≡ length m
      → All IsRecord l
      → All IsRecord m
      → Linked hash_sha256 p l
      → Linked hash_sha256 q m
      → end_hash hash_sha256 p l ≡ end_hash hash_sha256 q m
      → ((p ≡ q) × (l ≡ m)) ⊎ Collision
  unfolding Linked end_hash
  Linked-end_hash p q [] [] n v w a b h = inl (h, refl)
  Linked-end_hash p q [] (s ∷ m) n v w a b h = ground arith
  Linked-end_hash p q (r ∷ l) [] n v w a b h = ground arith
  Linked-end_hash p q (r ∷ l) (s ∷ m) n (v, vs) (w, ws) (a, _, as') (b, _, bs) h =
      elim (Linked-end_hash (hash_sha256 (Record.to_bytes r)) (hash_sha256 (Record.to_bytes s)) l m
        (omega arith) vs ws as' bs h) [
          | inl (e, t) ↦ elim (same_bytes (Record.to_bytes r) (Record.to_bytes s) e) [
            | inl same ↦
                let equal = to_bytes-injective r s v w same in
                inl (sym a ∙ (ap (λ x. x.header.previous_hash) equal ∙ b), cons_eq equal t)
            | inr x ↦ inr x
          ]
          | inr x ↦ inr x
        ]

  -- Two chains of well-formed records that verify, have one length and end in records of one hash
  -- are the same chain, or else give a collision of the hash.
  pub verify-tamper :
      (c d : Chain)
      → All IsRecord c.records
      → All IsRecord d.records
      → verify hash_sha256 c ≡ ok true
      → verify hash_sha256 d ≡ ok true
      → length c.records ≡ length d.records
      → link hash_sha256 (last c.records) ≡ link hash_sha256 (last d.records)
      → (c.records ≡ d.records) ⊎ Collision
  verify-tamper c d v w e f n h =
      let (linked_c, _) = verify_iff hash_sha256 c in
      let (linked_d, _) = verify_iff hash_sha256 d in
      let ends =
        sym (link-end_hash hash_sha256 c.records) ∙ (h ∙ link-end_hash hash_sha256 d.records) in
      elim (Linked-end_hash genesis_hash genesis_hash c.records d.records n v w (linked_c e)
        (linked_d f) ends) [ inl (_, same) ↦ inl same | inr x ↦ inr x ]

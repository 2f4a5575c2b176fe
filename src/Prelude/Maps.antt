-- ===== src/Prelude/Maps.antt =====
-- A `HashMap` as its list of entries. The order in which one is iterated is the standard library's:
-- where it matters, it is a parameter that lists the entries in some order.
use Prim.Native.Nat.{ℕ}
use mathlib.Core.Path.{◌≡◌, refl, sym, ◌∙◌}
use mathlib.Core.Logic.{inl, inr, ∥∥₁_elim}
use mathlib.Core.Bool.{Bool, true, false, ◌&&◌, Bool-set}
use mathlib.Core.List.{List, [], ◌∷◌, Perm, Permᴰ}
use mathlib.Core.Option.{Option, none, some}
use native.Mathlib.Omega.{arith}
use hyperkitty_constraint_ds.Prelude.Tests.{◌==◌, eq→==, ==→eq, if◌then◌else◌, Bool-cases}
use hyperkitty_constraint_ds.Prelude.Lists.{all}
use hyperkitty_constraint_ds.Prelude.Texts.{Text, text_eq, text_eq_refl, text_eq-eq}

-- `Eq` of a key type.
pub record Key (K : Type 0) : Type 0 where
  pub same : K → K → Bool
  pub same_refl : (k : K) → same k k ≡ true
  pub same-eq : (j k : K) → same j k ≡ true → j ≡ k

instance abbrev pub text_key : Key Text
text_key = record { same = text_eq; same_refl = text_eq_refl; same-eq = text_eq-eq }

instance abbrev pub number_key : Key ℕ
number_key = record { same = ◌==◌; same_refl = λ k. eq→== k k refl; same-eq = ==→eq }

abbrev pub HashMap : Type 0 → Type 0 → Type 0
HashMap K V = List (K × V)

same-differ : {K : Type 0} ⦃q : Key K⦄ (j k : K) → q.same j k ≡ false → q.same k j ≡ false
same-differ ⦃q⦄ j k n = elim (Bool-cases (q.same k j)) [
  | inl h ↦
      let e : j ≡ k = sym (q.same-eq k j h) in
      let w : q.same j k ≡ true = rw e (q.same_refl k) in cc
  | inr o ↦ o
]

module _ {K V : Type 0} ⦃q : Key K⦄ where
  unfoldable pub lookup : K → HashMap K V → Option V
  lookup k [] = none
  lookup k (e ∷ m) = let rest = lookup k m in if q.same e.0 k then some e.1 else rest

  unfoldable pub insert : K → V → HashMap K V → HashMap K V
  insert k v [] = (k, v) ∷ []
  insert k v (e ∷ m) = let rest = insert k v m in if q.same e.0 k then (e.0, v) ∷ m else e ∷ rest

  -- Every key has one entry.
  abbrev pub IsMap : HashMap K V → Type 0
  IsMap [] = Unit
  IsMap (e ∷ m) = (lookup e.0 m ≡ none) × IsMap m

  -- An insertion changes the map at its key and nowhere else.
  pub lookup-insert :
      (k : K) (v : V) (m : HashMap K V) (j : K)
      → lookup j (insert k v m) ≡ (if q.same k j then some v else lookup j m)
  unfolding lookup insert
  lookup-insert k v [] j = refl
  lookup-insert k v (e ∷ m) j =
      let ih = lookup-insert k v m j in
      elim (Bool-cases (q.same e.0 k)) [
        | inl h ↦ rw h (rw (q.same-eq e.0 k h) (ground arith))
        | inr n ↦ rw n (elim (Bool-cases (q.same e.0 j)) [
          | inl h ↦
              let o : q.same k j ≡ false = rw (← q.same-eq e.0 j h) (same-differ e.0 k n) in
              rw (h, o) refl
          | inr o ↦ rw (o, ih) (ground arith)
        ])
      ]

  lookup-insert_other :
      (k : K) (v : V) (m : HashMap K V) (j : K)
      → q.same k j ≡ false
      → lookup j m ≡ none
      → lookup j (insert k v m) ≡ none
  lookup-insert_other k v m j n h = lookup-insert k v m j ∙ rw n h

  pub insert-IsMap : (k : K) (v : V) (m : HashMap K V) → IsMap m → IsMap (insert k v m)
  unfolding lookup insert
  insert-IsMap k v [] h = (refl, tt)
  insert-IsMap k v (e ∷ m) h = elim (Bool-cases (q.same e.0 k)) [
    | inl s ↦ rw s h
    | inr n ↦ rw n (lookup-insert_other k v m e.0 (same-differ e.0 k n) h.0, insert-IsMap k v m h.1)
  ]

&&-swap : (a b c : Bool) → (a && (b && c)) ≡ (b && (a && c))
&&-swap a b c = ground arith

module _ {A : Type 0} (p : A → Bool) where
  all-Permᴰ : {xs ys : List A} → Permᴰ xs ys → all p xs ≡ all p ys
  all-Permᴰ Permᴰ.nil = refl
  all-Permᴰ (Permᴰ.cons e d) = rw (e, all-Permᴰ d) refl
  all-Permᴰ (Permᴰ.swap {a = a} {b = b} {l = l} e f) = rw (← e, ← f) (&&-swap (p a) (p b) (all p l))
  all-Permᴰ (Permᴰ.trans d c) = all-Permᴰ d ∙ all-Permᴰ c

  -- A test of every entry does not see their order.
  pub all-Perm : (xs ys : List A) → Perm xs ys → all p xs ≡ all p ys
  all-Perm xs ys h = ∥∥₁_elim h (Bool-set _ _) (λ d. all-Permᴰ d)

-- ===== src/Nand/Boolean/Tables.antt =====
-- Truth tables list every assignment, so equivalence by tables is equivalence.
use native.Mathlib.Decide.{dec_lt}
use native.Mathlib.Nat.{pow-suc, add-mul-div_right, div-eq_of_lt}
use hyperkitty_constraint_ds.Prelude.{
  ℕ, zero, suc, ◌+◌, ◌*◌, ◌/◌, ◌%◌, ◌^◌, ◌≤◌, ◌<◌, ◌≡◌, ◌≢◌, ◌↔◌, refl, sym, ap, ◌∙◌, Bool, true,
  false, ◌&&◌, none, some, List, [], ◌∷◌, length, get_elem?, arith, ◌==◌, ltb, &&-true, some_eq,
}
use hyperkitty_constraint_ds.Nand.Primitive
use hyperkitty_constraint_ds.Nand.Boolean.{
  BoolExpr, var, const, nand, eval, row_bindings, table_rows, truth_table, row_count, same_value,
  same_outputs, compare_tables, functionally_equivalent,
}

pow-two : (k : ℕ) → 2 ^ suc k ≡ 2 * 2 ^ k
pow-two k = omega (arith, pow-suc 2 k)

pow_pos : (k : ℕ) → 0 < 2 ^ k
pow_pos zero = omega arith
pow_pos (suc k) = omega (arith, pow_pos k)

-- The bits of a number below the `k`-th, from the highest on.
bits : ℕ → ℕ → List Bool
bits zero row = []
bits (suc k) row = (row / 2 ^ k % 2 == 1) ∷ bits k row

-- Up to 64 bits a shift is by its whole number.
row_bindings-bits : (k row : ℕ) → k ≤ 64 → row_bindings k row ≡ bits k row
unfolding row_bindings bits
row_bindings-bits zero row h = refl
row_bindings-bits (suc k) row h =
    let whole : k % 64 ≡ k = omega arith in rw (whole, row_bindings-bits k row (omega arith)) refl

-- Bits from the `k`-th on do not matter to the bits below.
bits-add : (k c v : ℕ) → bits k (v + c * 2 ^ k) ≡ bits k v
unfolding bits
bits-add zero c v = refl
bits-add (suc k) c v =
    let double : c * 2 ^ suc k ≡ c * (2 * 2 ^ k) = ap (λ t. c * t) (pow-two k) in
    let high : (v + c * 2 ^ suc k) / 2 ^ k ≡ v / 2 ^ k + 2 * c =
      ap (λ n. n / 2 ^ k) (omega (arith, double)) ∙ add-mul-div_right v (2 * c) (pow_pos k) in
    let bit : (v + c * 2 ^ suc k) / 2 ^ k % 2 ≡ v / 2 ^ k % 2 = omega (arith, high) in
    let low : bits k (v + c * 2 ^ suc k) ≡ bits k v =
      ap (bits k) (omega (arith, double)) ∙ bits-add k (2 * c) v in
    rw (bit, low) refl

digit : Bool → ℕ
digit true = 1
digit false = 0

-- The row at which an assignment stands.
row_of : List Bool → ℕ
row_of [] = 0
row_of (b ∷ bs) = row_of bs + digit b * 2 ^ length bs

row_of-lt : (bs : List Bool) → row_of bs < 2 ^ length bs
unfolding row_of digit
row_of-lt [] = omega arith
row_of-lt (true ∷ bs) = omega (arith, row_of-lt bs, pow-two (length bs))
row_of-lt (false ∷ bs) = omega (arith, row_of-lt bs, pow-two (length bs))

top_bit : (b : Bool) (k v : ℕ) → v < 2 ^ k → ((v + digit b * 2 ^ k) / 2 ^ k % 2 == 1) ≡ b
unfolding digit
top_bit b k v lt =
    let high : (v + digit b * 2 ^ k) / 2 ^ k ≡ digit b =
      add-mul-div_right v (digit b) (pow_pos k)
      ∙ ap (λ n. n + digit b) (div-eq_of_lt lt)
      ∙ omega arith in
    rw high (value b)
  where
    value : (b : Bool) → (digit b % 2 == 1) ≡ b
    value true = refl
    value false = refl

bits-row_of : (bs : List Bool) → bits (length bs) (row_of bs) ≡ bs
unfolding bits row_of
bits-row_of [] = refl
bits-row_of (b ∷ bs) = cc (
  top_bit b (length bs) (row_of bs) (row_of-lt bs),
  bits-add (length bs) (digit b) (row_of bs),
  bits-row_of bs,
)

length-row_bindings : (k row : ℕ) → length (row_bindings k row) ≡ k
unfolding row_bindings
length-row_bindings zero row = refl
length-row_bindings (suc k) row = ap suc (length-row_bindings k row)

-- Every variable is below `n`.
abbrev pub IsScoped : ℕ → BoolExpr → Type 0
IsScoped n (var i) = i < n
IsScoped n (const v) = Unit
IsScoped n (nand a b) = IsScoped n a × IsScoped n b

get_elem?_total : (bs : List Bool) (i : ℕ) → i < length bs → (v : Bool) × (get_elem? bs i ≡ some v)
get_elem?_total [] i h = elim h [ ]
get_elem?_total (b ∷ bs) zero h = (b, refl)
get_elem?_total (b ∷ bs) (suc i) h = get_elem?_total bs i (omega arith)

-- An expression whose variables are below the number of bindings does not panic.
pub eval_total :
    (e : BoolExpr) (bs : List Bool) → IsScoped (length bs) e → (v : Bool) × (eval e bs ≡ some v)
unfolding eval
eval_total (var i) bs h = get_elem?_total bs i h
eval_total (const v) bs h = (v, refl)
eval_total (nand a b) bs h =
    let (x, p) = eval_total a bs h.0 in
    let (y, q) = eval_total b bs h.1 in (Primitive.nand x y, rw (p, q) refl)

eval_row :
    (e : BoolExpr) (n row : ℕ) → IsScoped n e → (v : Bool) × (eval e (row_bindings n row) ≡ some v)
eval_row e n row h = eval_total e (row_bindings n row) (rw (length-row_bindings n row) h)

table_rows_total :
    (e : BoolExpr) (n left row : ℕ)
    → IsScoped n e
    → (t : List (List Bool × Bool)) × (table_rows e n left row ≡ some t)
unfolding table_rows
table_rows_total e n zero row h = ([], refl)
table_rows_total e n (suc left) row h =
    let (v, p) = eval_row e n row h in
    let (t, q) = table_rows_total e n left (row + 1) h in
    ((row_bindings n row, v) ∷ t, rw (p, q) refl)

same_value_iff : (a b : Bool) → (same_value a b ≡ true) ↔ (a ≡ b)
same_value_iff true true = (λ h. refl, λ h. refl)
same_value_iff true false = (λ h. cc, λ h. cc)
same_value_iff false true = (λ h. cc, λ h. cc)
same_value_iff false false = (λ h. refl, λ h. refl)

abbrev AgreeFrom : BoolExpr → BoolExpr → ℕ → ℕ → ℕ → Type 0
AgreeFrom a b n left row =
    (r : ℕ) → row ≤ r → r < row + left → eval a (row_bindings n r) ≡ eval b (row_bindings n r)

compare_tables_iff :
    (a b : BoolExpr) (n left row : ℕ)
    → IsScoped n a
    → IsScoped n b
    → (compare_tables (table_rows a n left row) (table_rows b n left row) ≡ some true)
      ↔ AgreeFrom a b n left row
unfolding table_rows same_outputs
compare_tables_iff a b n zero row ha hb = (λ h r p q. absurd (omega arith), λ h. refl)
compare_tables_iff a b n (suc left) row ha hb =
    let (va, pa) = eval_row a n row ha in
    let (vb, pb) = eval_row b n row hb in
    let (ta, qa) = table_rows_total a n left (row + 1) ha in
    let (tb, qb) = table_rows_total b n left (row + 1) hb in
    let ih = compare_tables_iff a b n left (row + 1) ha hb in
    let here = same_value_iff va vb in
    (
      λ h r p q.
          let whole : some (same_value va vb && same_outputs ta tb) ≡ some true =
            rw (pa, pb, qa, qb) at h in
          let (first, rest) = &&-true (same_value va vb) _ (some_eq whole) in
          elim (dec_lt row r) [
            | yes lt ↦ ih.0 (rw (qa, qb) (ap some rest)) r (omega arith) (omega arith)
            | no ge ↦
                let e : row ≡ r = omega arith in rw (← e) (pa ∙ ap some (here.0 first) ∙ sym pb)
          ],
      λ h.
          let first : same_value va vb ≡ true =
            here.1 (some_eq (sym pa ∙ h row (omega arith) (omega arith) ∙ pb)) in
          let rest : some (same_outputs ta tb) ≡ some true =
            rw (qa, qb) at (ih.1 (λ r p q. h r (omega arith) (omega arith))) in
          rw (pa, pb, qa, qb) (rw (first, some_eq rest) refl),
    )

pow_le : (n : ℕ) → n < 58 → 2 ^ n ≤ 2 ^ 57
pow_le n h = mono 57 n (omega arith)
  where
    mono : (m n : ℕ) → n ≤ m → 2 ^ n ≤ 2 ^ m
    mono zero zero h = omega arith
    mono zero (suc n) h = omega arith
    mono (suc m) n h = elim (dec_lt m n) [
      | yes top ↦ let all_of : n ≡ suc m = omega arith in omega (arith, ap (λ k. 2 ^ k) all_of)
      | no below ↦ omega (arith, mono m n (omega arith), pow-two m)
    ]

-- For expressions over the variables below `n_vars`, fewer than 58: the comparison of the truth
-- tables does not panic, and says true exactly when the expressions agree under all assignments.
-- Memory is taken to suffice.
pub functionally_equivalent_iff :
    (a b : BoolExpr) (n_vars : ℕ)
    → IsScoped n_vars a
    → IsScoped n_vars b
    → n_vars < 58
    → ((functionally_equivalent a b n_vars ≡ some true)
        ↔ ((bs : List Bool) → length bs ≡ n_vars → eval a bs ≡ eval b bs))
      × (functionally_equivalent a b n_vars ≢ none)
unfolding functionally_equivalent truth_table
functionally_equivalent_iff a b n ha hb lt =
    let rows = compare_tables_iff a b n (2 ^ n) 0 ha hb in
    let count : row_count n ≡ 2 ^ n = ap (λ k. 2 ^ k) (omega arith) in
    let fits : 2 ^ n * 32 < 2 ^ 63 = omega (arith, pow_le n lt) in
    let small : ltb (2 ^ n * 32) (2 ^ 63) ≡ true = ground arith in
    let (ta, qa) = table_rows_total a n (2 ^ n) 0 ha in
    let (tb, qb) = table_rows_total b n (2 ^ n) 0 hb in
    (
      (
        λ h bs len.
            let agree : AgreeFrom a b n (2 ^ n) 0 = rows.0 (rw (count, small) at h) in
            let at_row =
              agree (row_of bs) (omega arith) (omega (arith, row_of-lt bs, ap (λ k. 2 ^ k) len)) in
            let same : row_bindings n (row_of bs) ≡ bs =
              row_bindings-bits n (row_of bs) (omega arith)
              ∙ ap (λ k. bits k (row_of bs)) (sym len)
              ∙ bits-row_of bs in
            rw same at at_row,
        λ h. rw (count, small) (rows.1 (λ r p q. h (row_bindings n r) (length-row_bindings n r))),
      ),
      λ h. not_none ta tb (rw (count, small, qa, qb) at h),
    )
  where
    not_none : (ta tb : List (List Bool × Bool)) → some (same_outputs ta tb) ≢ none
    not_none ta tb h = cc

-- ===== src/Nand/Boolean.antt =====
-- rust/crates/hyperkitty-nand/src/boolean.rs. A panic, by an index out of bounds or by a table that is
-- too large, is `none`.
pub mod Gates
pub mod Tables
use hyperkitty_constraint_ds.Prelude.{
  ℕ, zero, suc, ◌+◌, ◌*◌, ◌/◌, ◌%◌, ◌^◌, Bool, true, false, ◌&&◌, Option, none, some, List, [], ◌∷◌,
  get_elem?, ltb, ◌==◌, if◌then◌else◌,
}
use hyperkitty_constraint_ds.Nand.Primitive

pub data BoolExpr : Type 0 where
  var : ℕ → BoolExpr
  const : Bool → BoolExpr
  nand : BoolExpr → BoolExpr → BoolExpr

unfoldable pub from_not : BoolExpr → BoolExpr
from_not a = nand a a

unfoldable pub from_and : BoolExpr → BoolExpr → BoolExpr
from_and a b = let nand_ab = nand a b in nand nand_ab nand_ab

unfoldable pub from_or : BoolExpr → BoolExpr → BoolExpr
from_or a b = let not_a = nand a a in let not_b = nand b b in nand not_a not_b

unfoldable pub from_xor : BoolExpr → BoolExpr → BoolExpr
from_xor a b =
    let not_a = nand a a in
    let not_b = nand b b in let left = nand not_a b in let right = nand a not_b in nand left right

unfoldable pub from_implies : BoolExpr → BoolExpr → BoolExpr
from_implies a b = let not_b = nand b b in nand a not_b

unfoldable pub is_pure_nand : BoolExpr → Bool
is_pure_nand (var i) = true
is_pure_nand (const v) = true
is_pure_nand (nand a b) = is_pure_nand a && is_pure_nand b

-- The gate on the values of two expressions, either of which may have panicked.
abbrev pub nand_values : Option Bool → Option Bool → Option Bool
nand_values (some a) (some b) = some (Primitive.nand a b)
nand_values (some a) none = none
nand_values none b = none

unfoldable pub eval : BoolExpr → List Bool → Option Bool
unfolding Primitive.nand
eval (var i) bindings = get_elem? bindings i
eval (const v) bindings = some v
eval (nand a b) bindings = nand_values (eval a bindings) (eval b bindings)

-- The assignment of a row: bit `n_vars - 1 - var_idx` of `row` for each variable, from the first
-- on. The count goes down from `n_vars`, and is the number of the bit plus one. A shift is by the
-- number's lowest six bits, as in a release build.
unfoldable pub row_bindings : ℕ → ℕ → List Bool
row_bindings zero row = []
row_bindings (suc k) row = (row / 2 ^ (k % 64) % 2 == 1) ∷ row_bindings k row

abbrev pub push_row :
    List Bool → Option Bool → Option (List (List Bool × Bool)) → Option (List (List Bool × Bool))
push_row bindings none rest = none
push_row bindings (some v) none = none
push_row bindings (some v) (some rest) = some ((bindings, v) ∷ rest)

-- The rows from `row` on, of which `left` are left.
unfoldable pub table_rows : BoolExpr → ℕ → ℕ → ℕ → Option (List (List Bool × Bool))
unfolding eval row_bindings
table_rows expr n_vars zero row = some []
table_rows expr n_vars (suc left) row =
    push_row (row_bindings n_vars row) (eval expr (row_bindings n_vars row))
      (table_rows expr n_vars left (row + 1))

-- `1usize << n_vars`
abbrev pub row_count : ℕ → ℕ
row_count n_vars = 2 ^ (n_vars % 64)

-- `Vec::with_capacity(n_rows)` panics when the rows, of 32 bytes, take more than `isize::MAX` bytes.
unfoldable pub truth_table : BoolExpr → ℕ → Option (List (List Bool × Bool))
unfolding table_rows
truth_table expr n_vars =
    if ltb (row_count n_vars * 32) (2 ^ 63)
    then table_rows expr n_vars (row_count n_vars) 0
    else none

unfoldable pub lower_to_nand : BoolExpr → BoolExpr
lower_to_nand (var i) = var i
lower_to_nand (const v) = const v
lower_to_nand (nand a b) = nand (lower_to_nand a) (lower_to_nand b)

abbrev pub same_value : Bool → Bool → Bool
same_value true b = b
same_value false true = false
same_value false false = true

-- `ta.iter().zip(tb.iter()).all(..)` compares the outputs.
unfoldable pub same_outputs : List (List Bool × Bool) → List (List Bool × Bool) → Bool
same_outputs ((x, ra) ∷ ta) ((y, rb) ∷ tb) = same_value ra rb && same_outputs ta tb
same_outputs _ _ = true

abbrev pub compare_tables :
    Option (List (List Bool × Bool)) → Option (List (List Bool × Bool)) → Option Bool
compare_tables (some ta) (some tb) = some (same_outputs ta tb)
compare_tables (some ta) none = none
compare_tables none tb = none

unfoldable pub functionally_equivalent : BoolExpr → BoolExpr → ℕ → Option Bool
unfolding truth_table same_outputs
functionally_equivalent a b n_vars = compare_tables (truth_table a n_vars) (truth_table b n_vars)

-- ===== src/Prelude/Decimal.antt =====
-- `{}` of a number: its decimal digits. The fuel is the number of digits of the widest value: twenty
-- are enough for a `u64`.
use Prim.Native.Nat.{ℕ, zero, suc, ◌+◌, ◌/◌, ◌%◌}
use mathlib.Core.List.{[], ◌∷◌, ◌++◌}
use hyperkitty_constraint_ds.Prelude.Tests.{ltb, if◌then◌else◌}
use hyperkitty_constraint_ds.Prelude.Texts.{Text}

unfoldable pub digits_on : ℕ → ℕ → Text
digits_on zero n = []
digits_on (suc fuel) n =
    let rest = digits_on fuel (n / 10) in
    if ltb n 10 then (48 + n) ∷ [] else rest ++ (48 + n % 10) ∷ []

unfoldable pub decimal : ℕ → Text
unfolding digits_on
decimal n = digits_on 20 n

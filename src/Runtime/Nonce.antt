-- ===== src/Runtime/Nonce.antt =====
-- rust/crates/hyperkitty-magma/src/nonce.rs: nonces are accepted once.
use hyperkitty_constraint_ds.Prelude.{ℕ, List, [], ◌∷◌, if◌then◌else◌}
use hyperkitty_constraint_ds.Core.{Result, Result.ok, Result.err, Error.replayed_nonce}
use hyperkitty_constraint_ds.Nand.Conflicts.{has}

pub record NonceRegistry : Type 0 where
  pub seen : List ℕ

unfoldable pub new : NonceRegistry
new = record { seen = [] }

unfoldable pub check_and_register : NonceRegistry → ℕ → NonceRegistry × Result (Unit {0})
unfolding has
check_and_register r nonce =
    if has nonce r.seen then (r, err replayed_nonce) else (record { seen = nonce ∷ r.seen }, ok tt)

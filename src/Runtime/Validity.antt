-- ===== src/Runtime/Validity.antt =====
-- rust/crates/hyperkitty-runtime/src/validity.rs: the gates that a transition passes.
use hyperkitty_constraint_ds.Prelude.{
  Bool, true, false, not, ◌||◌, Option, none, some, leb, if◌then◌else◌,
}
use hyperkitty_constraint_ds.Glyph.{Glyph, index}
use hyperkitty_constraint_ds.Runtime.Float.{Float}

pub data ValidityGate : Type 0 where
  balance invariant entropy proof reconciliation route : ValidityGate

pub record ValidityInput (F : Type 0) : Type 0 where
  pub current_state : Glyph
  pub previous_state : Glyph
  pub route_result : Option Glyph
  pub entropy : F
  pub proof_exists : Bool
  pub invariant_ok : Bool

pub record ValidityDecision (F : Type 0) : Type 0 where
  pub accepted : Bool
  pub balance_ok : Bool
  pub invariant_ok : Bool
  pub entropy_ok : Bool
  pub proof_ok : Bool
  pub reconciliation_ok : Bool
  pub route_ok : Bool
  pub failed_gate : Option ValidityGate
  pub measured_entropy : F

unfoldable pub is_none : Option Glyph → Bool
is_none none = true
is_none (some g) = false

unfoldable pub reject : {F : Type 0} → ValidityGate → F → ValidityDecision F
reject gate e = record {
  accepted = false;
  balance_ok = false;
  invariant_ok = false;
  entropy_ok = false;
  proof_ok = false;
  reconciliation_ok = false;
  route_ok = false;
  failed_gate = some gate;
  measured_entropy = e;
}

unfoldable pub accept : (f : Float) → ValidityDecision f.Carrier
accept f = record {
  accepted = true;
  balance_ok = true;
  invariant_ok = true;
  entropy_ok = true;
  proof_ok = true;
  reconciliation_ok = true;
  route_ok = true;
  failed_gate = none;
  measured_entropy = f.zero;
}

-- `check` of a predicate with the threshold `MAX_ENTROPY`, the only one that is made.
unfoldable pub check : (f : Float) → ValidityInput f.Carrier → ValidityDecision f.Carrier
unfolding is_none reject accept index
check f input =
    if is_none input.route_result
    then reject route input.entropy
    else (if not (f.is_finite input.entropy) || f.lt input.entropy f.zero
        then reject entropy input.entropy
        else (if f.lt f.max_entropy input.entropy
            then reject entropy input.entropy
            else (if not input.proof_exists
                then reject proof input.entropy
                else (if not input.invariant_ok
                    then reject invariant input.entropy
                    else (if leb 6 (index input.current_state) || leb 6 (index input.previous_state)
                        then reject balance input.entropy
                        else accept f)))))

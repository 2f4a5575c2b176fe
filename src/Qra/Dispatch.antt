-- ===== src/Qra/Dispatch.antt =====
-- rust/crates/hyperkitty-routing/src/qra_dispatch.rs: dispatch through the transition table. An
-- outer `none` is a panic in the table lookup.
use hyperkitty_constraint_ds.Prelude.{
  ℕ, zero, suc, Bool, true, not, Option, none, some, List, [], ◌∷◌, ◌++◌, String, ltb,
  if◌then◌else◌,
}
use hyperkitty_constraint_ds.Core.{
  Result, Result.ok, Result.err, Result.no_fuel, Error.parse_error, Error.no_valid_routes, literal,
  variant,
}
use hyperkitty_constraint_ds.Glyph.{Glyph, pi, gamma, delta, omega, lambda, psi, index, is_absorber}
use hyperkitty_constraint_ds.Qra.{next_glyph, ◌>>=◌}

pub record DispatchResult : Type 0 where
  pub current : Glyph
  pub previous : Glyph
  pub next : Glyph
  pub absorbed : Bool
  pub is_valid : Bool

unfoldable pub new : Glyph → Glyph → Option DispatchResult
unfolding next_glyph is_absorber
new current previous = next_glyph current previous >>= λ next. some (record {
  current = current;
  previous = previous;
  next = next;
  absorbed = is_absorber next;
  is_valid = true;
})

unfoldable pub is_valid_pair : Glyph → Glyph → Bool
unfolding index
is_valid_pair current previous = ltb (index current) 6

-- `{:?}` of a glyph.
unfoldable pub debug : Glyph → String
debug pi = "Pi"
debug gamma = "Gamma"
debug delta = "Delta"
debug omega = "Omega"
debug lambda = "Lambda"
debug psi = "Psi"

unfoldable pub dispatch : Glyph → Glyph → Option (Result DispatchResult)
unfolding is_valid_pair new debug
dispatch current previous =
    if not (is_valid_pair current previous)
    then some (
        err (
          parse_error (record {
            format = "invalid glyph pair: {:?}, {:?}";
            args = variant (debug current) ∷ variant (debug previous) ∷ [];
          })))
    else new current previous >>= λ result. some (ok result)

-- The loop of `dispatch_batch`, with the results so far.
unfoldable pub batch_loop :
    List (Glyph × Glyph) → List DispatchResult → Option (List DispatchResult)
unfolding is_valid_pair new
batch_loop [] results = some results
batch_loop ((current, previous) ∷ pairs) results =
    let skipped = batch_loop pairs results in
    if is_valid_pair current previous
    then (new current previous >>= λ result. batch_loop pairs (results ++ (result ∷ [])))
    else skipped

unfoldable pub batch_result : List DispatchResult → Result (List DispatchResult)
batch_result [] = err (parse_error (literal "no valid glyph pairs"))
batch_result (r ∷ rs) = ok (r ∷ rs)

unfoldable pub dispatch_batch : List (Glyph × Glyph) → Option (Result (List DispatchResult))
unfolding batch_loop batch_result
dispatch_batch [] = some (err no_valid_routes)
dispatch_batch (p ∷ ps) = batch_loop (p ∷ ps) [] >>= λ results. some (batch_result results)

-- The loop of `route_to_convergence`, for the iterations left.
unfoldable pub route_loop : ℕ → Glyph → Glyph → List Glyph → Option (Result (List Glyph))
unfolding is_absorber dispatch
route_loop zero current previous states = some (ok states)
route_loop (suc n) current previous states =
    if is_absorber current then some (ok states) else elim (dispatch current previous) [
      | none ↦ none
      | some (ok r) ↦ route_loop n r.next current (states ++ (r.next ∷ []))
      | some (err e) ↦ some (err e)
      | some Result.no_fuel ↦ some no_fuel
    ]

abbrev pub max_iterations : ℕ
max_iterations = 100

unfoldable pub route_to_convergence : Glyph → Option (Result (List Glyph))
unfolding route_loop
route_to_convergence start = route_loop max_iterations start lambda (start ∷ [])

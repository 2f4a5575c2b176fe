-- ===== src/Examples/Routing.antt =====
-- The pipeline and the dispatcher with fractions for `f64`.
use hyperkitty_constraint_ds.Prelude.{
  if◌then◌else◌, is_some, ℕ, ◌+◌, ◌*◌, ◌%◌, ◌^◌, ◌<◌, ◌≡◌, ◌≢◌, ◌↔◌, refl, Text, codes, true, [],
  ◌∷◌, All, any, length, ltb, ◌==◌, arith,
}
use hyperkitty_constraint_ds.Prelude.Maps.{HashMap, IsMap, lookup, number_key}
use hyperkitty_constraint_ds.Core.{ok, err, no_valid_routes}
use hyperkitty_constraint_ds.Routing.Platform.{Platform, IsPlatform}
use hyperkitty_constraint_ds.Routing.Nodes.{RoutingNode}
use hyperkitty_constraint_ds.Routing.Words.{split_whitespace}
use hyperkitty_constraint_ds.Routing.Pipeline.{process}
use hyperkitty_constraint_ds.Routing.Pipeline.Laws.{answer, process_lem}
use hyperkitty_constraint_ds.Routing.Dispatcher.{Dispatcher, dispatch_batch}
use hyperkitty_constraint_ds.Routing.Laws.{runs, count_valid, is_valid_at, dispatch_batch_lem}

abbrev fractions : Platform
fractions = record {
  Float = ℕ × ℕ;
  zero = (0, 1);
  one = (1, 1);
  three_tenths = (3, 10);
  half = (1, 2);
  three_halves = (3, 2);
  euler = (271828, 100000);
  ten = (10, 1);
  lt = λ a b. ltb (a.0 * b.1) (b.0 * a.1);
  of_nat = λ n. (n, 1);
  add = λ a b. (a.0 * b.1 + b.0 * a.1, a.1 * b.1);
  mul = λ a b. (a.0 * b.0, a.1 * b.1);
  div = λ a b. (a.0 * b.1, a.1 * b.0);
  ln = λ a. a;
  display = λ a. [];
  display_four = λ a. [];
  debug_texts = λ ts. [];
  message_text = λ m. [];
  is_whitespace = λ c. c == 32;
  order = λ m. m;
}

fractions-IsPlatform : IsPlatform fractions
fractions-IsPlatform = record { positive = λ i l. ground arith; above = λ i l. ground arith }

abbrev hello : Text
hello = codes "hello world"

hello-words : length (split_whitespace fractions hello) ≡ 2
unfolding split_whitespace
hello-words = refl

hello-short : length (split_whitespace fractions hello) < 2 ^ 63
unfolding split_whitespace
hello-short = omega arith

process_lem_example :
    (process fractions hello ≡ answer fractions hello (split_whitespace fractions hello))
    × ((split_whitespace fractions hello ≡ []) ↔ All (λ c. fractions.is_whitespace c ≡ true) hello)
process_lem_example = process_lem fractions hello fractions-IsPlatform hello-short

abbrev router : RoutingNode (ℕ × ℕ)
router = record { id = 7; name = codes "router"; weight = (1, 2); enabled = true }

abbrev idle : Dispatcher
idle = record { execution_count = 0 }

router-nonempty : router ∷ [] ≢ []
router-nonempty e = cc

hello-nonempty : hello ≢ []
hello-nonempty e = cc

dispatch_batch_lem_example :
    (results : HashMap ℕ Text) × (dispatch_batch fractions idle (router ∷ []) hello ≡ (
      record { execution_count = (0 + count_valid fractions (router ∷ [])) % 2 ^ 64 },
      if any (runs fractions) (router ∷ []) then ok results else err no_valid_routes,
    ))
    × IsMap results
    × ((id : ℕ) → is_some (lookup id results) ≡ any (is_valid_at fractions id) (router ∷ []))
dispatch_batch_lem_example =
    dispatch_batch_lem fractions idle (router ∷ []) hello router-nonempty hello-nonempty
      (omega arith)

-- ===== src/Examples/Ere.antt =====
-- The gates on a small artifact.
use hyperkitty_constraint_ds.Prelude.{◌≡◌, ◌↔◌, ◌⊎◌, refl, Text, codes, true, ◌==◌}
use hyperkitty_constraint_ds.Prelude.Search.{contains}
use hyperkitty_constraint_ds.Core.{ok, err, proof_failed}
use hyperkitty_constraint_ds.Ere.Receipt.{Outside, run_all}
use hyperkitty_constraint_ds.Ere.Telemetry.{check_telemetry}
use hyperkitty_constraint_ds.Ere.Requests.{IsUntracked, check_telemetry_iff}
use hyperkitty_constraint_ds.Ere.Laws.{IsAdmitted, receipt, run_all_lem}

-- A hash that keeps its input, and patterns that are searched as they stand.
abbrev outside : Outside
outside = record {
  sha256 = λ b. b;
  as_bytes = λ s. s;
  is_match = λ pattern line. contains line pattern;
  is_whitespace = λ c. c == 32;
  to_lowercase = λ s. s;
}

abbrev agent : Text
agent = codes "agent"

abbrev add_one : Text
add_one = codes "fn add_one(x: u32) -> u32 { x + 1 }"

abbrev intent : Text
intent = codes "count"

add_one-runs : run_all outside agent add_one intent ≡ ok (receipt outside agent add_one intent)
unfolding run_all
add_one-runs = refl

-- A URL that is let through hides the ones after it.
abbrev two_urls : Text
two_urls = codes "https://github.com https://tracker.example "

two_urls-pass : (check_telemetry (λ c. c == 32) (λ s. s) two_urls).0 ≡ true
unfolding check_telemetry
two_urls-pass = refl

run_all_lem_example :
    (IsAdmitted outside add_one
      × (run_all outside agent add_one intent ≡ ok (receipt outside agent add_one intent)))
    ⊎ ((¬ IsAdmitted outside add_one) × (run_all outside agent add_one intent ≡ err proof_failed))
run_all_lem_example = run_all_lem outside agent add_one intent

check_telemetry_iff_example :
    ((check_telemetry (λ c. c == 32) (λ s. s) two_urls).0 ≡ true)
    ↔ IsUntracked (λ c. c == 32) (λ s. s) two_urls
check_telemetry_iff_example = check_telemetry_iff (λ c. c == 32) (λ s. s) two_urls

-- ===== src/Ere/Evals.antt =====
-- rust/crates/hyperkitty-ere/src/p2_eval.rs: the gate against code that is evaluated at run time.
use hyperkitty_constraint_ds.Prelude.{
  is_empty, ℕ, ◌+◌, Text, codes, Bool, ◌||◌, List, [], ◌∷◌, ◌++◌, if◌then◌else◌,
}
use hyperkitty_constraint_ds.Prelude.Search.{lines, starts_with}
use hyperkitty_constraint_ds.Ere.Rules.{line_findings}

abbrev pub js_eval_regex : Text
js_eval_regex = codes "\\beval\\s*\\("

abbrev pub js_exec_regex : Text
js_exec_regex = codes "\\bexec\\s*\\("

abbrev pub js_function_regex : Text
js_function_regex = codes "new\\s+Function\\s*\\("

abbrev pub js_timeout_regex : Text
js_timeout_regex = codes "(?:set|clear)(?:Timeout|Interval)\\s*\\(\\s*['\"]"

abbrev pub python_exec_regex : Text
python_exec_regex = codes "(?:^|\\s|=)(?:exec|eval)\\s*\\("

abbrev pub python_subprocess_regex : Text
python_subprocess_regex = codes "subprocess\\.(?:call|run|Popen)\\s*\\("

abbrev pub java_runtime_regex : Text
java_runtime_regex = codes "(?:Runtime|getRuntime).*\\.exec\\s*\\("

abbrev pub shell_eval_regex : Text
shell_eval_regex = codes "(?:^|\\s)eval\\s+"

abbrev pub indirect_call_regex : Text
indirect_call_regex = codes "(?:\\$\\(|`|(?:call|invoke|apply)\\s*\\()"

unfoldable pub eval_rules : List (Text × Text)
eval_rules =
    (js_eval_regex, codes "JavaScript eval() detected")
    ∷ (js_exec_regex, codes "JavaScript exec() detected")
    ∷ (js_function_regex, codes "Function constructor with dynamic code detected")
    ∷ (js_timeout_regex, codes "setTimeout/setInterval with string detected")
    ∷ (python_exec_regex, codes "Python exec() or eval() detected")
    ∷ (python_subprocess_regex, codes "Python subprocess execution detected")
    ∷ (java_runtime_regex, codes "Java Runtime.exec() detected")
    ∷ (shell_eval_regex, codes "Shell eval command detected")
    ∷ (indirect_call_regex, codes "Indirect function call or command substitution detected")
    ∷ []

module _ (is_whitespace : ℕ → Bool) where
  unfoldable pub trim_start : Text → Text
  trim_start [] = []
  trim_start (c ∷ s) = let rest = trim_start s in if is_whitespace c then rest else c ∷ s

  unfoldable pub is_comment : Text → Bool
  unfolding trim_start starts_with
  is_comment line =
      starts_with (trim_start line) (codes "//") || starts_with (trim_start line) (codes "#")

  module _ (is_match : Text → Text → Bool) where
    -- The loop over the lines left.
    unfoldable pub evals_from : ℕ → List Text → List Text
    unfolding line_findings eval_rules is_comment
    evals_from line_no [] = []
    evals_from line_no (line ∷ rest) =
        let later = evals_from (line_no + 1) rest in
        if is_comment line then later else line_findings is_match line_no line eval_rules ++ later

    unfoldable pub check_eval : Text → Bool × List Text
    unfolding evals_from lines
    check_eval artifact =
        let findings = evals_from 1 (lines artifact) in (is_empty findings, findings)

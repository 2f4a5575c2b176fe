-- ===== src/Ere/Secrets.antt =====
-- rust/crates/hyperkitty-ere/src/p1_secrets.rs: the gate against secrets.
use hyperkitty_constraint_ds.Prelude.{is_empty, ℕ, ◌+◌, Text, codes, Bool, List, [], ◌∷◌, ◌++◌}
use hyperkitty_constraint_ds.Prelude.Search.{lines}
use hyperkitty_constraint_ds.Ere.Rules.{line_findings}

abbrev pub aws_key_regex : Text
aws_key_regex = codes "AKIA[0-9A-Z]{16}"

abbrev pub stripe_sk_regex : Text
stripe_sk_regex = codes "sk_(?:live|test)_[A-Za-z0-9_]{20,}"

abbrev pub github_token_regex : Text
github_token_regex = codes "(?i)ghp_[A-Za-z0-9_]{15,}"

abbrev pub private_key_regex : Text
private_key_regex = codes "-----BEGIN\\s*(PRIVATE|RSA|OPENSSH|EC|DSA|PGP|ENCRYPTED)\\s*KEY"

abbrev pub password_regex : Text
password_regex =
    codes "(?i)password\\s*[:=]\\s*['\"\"]?[A-Za-z0-9!@#$%^&*()_\\-+=\\[\\]{}<>]{8,}['\"\"]?"

abbrev pub api_key_regex : Text
api_key_regex = codes "(?i)api[-_]?key\\s*[:=]\\s*['\"\"]?[A-Za-z0-9\\-_]{8,}['\"\"]?"

abbrev pub bearer_token_regex : Text
bearer_token_regex = codes "(?i)bearer\\s+[A-Za-z0-9\\-._~+/]+=*"

abbrev pub jwt_regex : Text
jwt_regex = codes "eyJ[A-Za-z0-9_-]{10,}\\.eyJ[A-Za-z0-9_-]{10,}\\.[A-Za-z0-9_-]{10,}"

abbrev pub env_secret_regex : Text
env_secret_regex = codes "(?i)(secret|token|key)\\s*[:=]\\s*['\"]([A-Za-z0-9\\-_./+=]{20,})['\"]"

unfoldable pub secret_rules : List (Text × Text)
secret_rules =
    (aws_key_regex, codes "AWS access key detected (AKIA...)")
    ∷ (stripe_sk_regex, codes "Stripe secret key detected (sk_live/sk_test)")
    ∷ (github_token_regex, codes "GitHub personal access token detected (ghp_...)")
    ∷ (private_key_regex, codes "Private key marker detected (-----BEGIN PRIVATE/RSA/OPENSSH KEY)")
    ∷ (password_regex, codes "Password in plaintext detected (password=...)")
    ∷ (api_key_regex, codes "API key pattern detected (api_key=...)")
    ∷ (bearer_token_regex, codes "Bearer token detected")
    ∷ (jwt_regex, codes "JWT token detected")
    ∷ (env_secret_regex, codes "Environment secret pattern detected")
    ∷ []

module _ (is_match : Text → Text → Bool) where
  -- The loop over the lines left.
  unfoldable pub secrets_from : ℕ → List Text → List Text
  unfolding line_findings secret_rules
  secrets_from line_no [] = []
  secrets_from line_no (line ∷ rest) =
      line_findings is_match line_no line secret_rules ++ secrets_from (line_no + 1) rest

  unfoldable pub check_secrets : Text → Bool × List Text
  unfolding secrets_from lines
  check_secrets artifact =
      let findings = secrets_from 1 (lines artifact) in (is_empty findings, findings)

-- ===== src/Core.antt =====
-- hyperkitty-core: the error type (rust/crates/hyperkitty-core/src/error.rs) and `Result`.
-- A message made by `format!` is kept as its format string and its arguments, unformatted.
use hyperkitty_constraint_ds.Prelude.{codes, ◌++◌, ℕ, Text, String, List, [], ◌≡◌, refl}

-- An argument of `format!`: a text, a character, a number, or a `{:?}` of an enum value, which is
-- the variant's name or the name with the text that it holds.
pub data Arg : Type 0 where
  text : Text → Arg
  char : ℕ → Arg
  num : ℕ → Arg
  variant : String → Arg
  variant_of : String → Text → Arg

pub record Message : Type 0 where
  pub format : String
  pub args : List Arg

abbrev pub literal : String → Message
literal s = record { format = s; args = [] }

pub data Error : Type 0 where
  invalid_route unauthorized_route route_conflict no_valid_routes : Error
  invalid_signature replayed_nonce proof_failed : Error
  invariant_violated : Message → Error
  balance_violated entropy_exceeded : Error
  invalid_glyph invalid_ledger invalid_witness invalid_tick invalid_receipt : Error
  parse_error lexer_error syntax_error type_error : Message → Error
  serialization_error deserialization_error : Message → Error
  hash_mismatch signature_mismatch tamper_detected : Error
  storage_error : Message → Error
  chain_broken record_not_found : Error
  numerical_error matrix_error spectral_error : Message → Error
  not_initialized already_initialized locked timeout : Error
  custom : Message → Error

-- `Display`, with the text of a message as an argument.
unfoldable pub display_error : (Message → Text) → Error → Text
display_error text_of invalid_route = codes "Invalid route"
display_error text_of unauthorized_route = codes "Unauthorized route"
display_error text_of route_conflict = codes "Route conflict"
display_error text_of no_valid_routes = codes "No valid routes"
display_error text_of invalid_signature = codes "Invalid signature"
display_error text_of replayed_nonce = codes "Replayed nonce"
display_error text_of proof_failed = codes "Proof failed"
display_error text_of (invariant_violated msg) = codes "Invariant violated: " ++ text_of msg
display_error text_of balance_violated = codes "Balance violated"
display_error text_of entropy_exceeded = codes "Entropy exceeded maximum"
display_error text_of invalid_glyph = codes "Invalid glyph"
display_error text_of invalid_ledger = codes "Invalid ledger"
display_error text_of invalid_witness = codes "Invalid witness"
display_error text_of invalid_tick = codes "Invalid tick"
display_error text_of invalid_receipt = codes "Invalid receipt"
display_error text_of (parse_error msg) = codes "Parse error: " ++ text_of msg
display_error text_of (lexer_error msg) = codes "Lexer error: " ++ text_of msg
display_error text_of (syntax_error msg) = codes "Syntax error: " ++ text_of msg
display_error text_of (type_error msg) = codes "Type error: " ++ text_of msg
display_error text_of (serialization_error msg) = codes "Serialization error: " ++ text_of msg
display_error text_of (deserialization_error msg) = codes "Deserialization error: " ++ text_of msg
display_error text_of hash_mismatch = codes "Hash mismatch"
display_error text_of signature_mismatch = codes "Signature mismatch"
display_error text_of tamper_detected = codes "Tampering detected"
display_error text_of (storage_error msg) = codes "Storage error: " ++ text_of msg
display_error text_of chain_broken = codes "Chain broken"
display_error text_of record_not_found = codes "Record not found"
display_error text_of (numerical_error msg) = codes "Numerical error: " ++ text_of msg
display_error text_of (matrix_error msg) = codes "Matrix error: " ++ text_of msg
display_error text_of (spectral_error msg) = codes "Spectral error: " ++ text_of msg
display_error text_of not_initialized = codes "Not initialized"
display_error text_of already_initialized = codes "Already initialized"
display_error text_of locked = codes "Locked"
display_error text_of timeout = codes "Timeout"
display_error text_of (custom msg) = codes "Error: " ++ text_of msg

-- `Result<T, Error>`. A loop on fuel that runs out gives `no_fuel`, which the source has not.
pub data Result {ℓ} (A : Type ℓ) : Type ℓ where
  ok : A → Result A
  err : Error → Result A
  no_fuel : Result A

-- `?`: the rest of the function runs on the value of a success.
infixl 5 ◌>>=◌
abbrev pub ◌>>=◌ {ℓ κ} : {X : Type ℓ} {Y : Type κ} (r : Result X) (next : X → Result Y) → Result Y
◌>>=◌ no_fuel next = no_fuel
◌>>=◌ (err problem) next = err problem
◌>>=◌ (ok value) next = next value

-- What a successful `?` says of its two parts.
pub >>=-eq-ok {ℓ κ} :
    {X : Type ℓ}
    → {Y : Type κ} → (r : Result X) (next : X → Result Y) {y : Y} (e : (r >>= next) ≡ ok y)
    → (x : X) × (r ≡ ok x) × (next x ≡ ok y)
>>=-eq-ok no_fuel next e = cc
>>=-eq-ok (err problem) next e = cc
>>=-eq-ok (ok value) next e = (value, refl, e)

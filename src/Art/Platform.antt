-- ===== src/Art/Platform.antt =====
-- What the crate hyperkitty-art takes from elsewhere: `f64`, UTF-8, SHA-256 (crate `sha2`) and the
-- values of `serde_json`; and `Result<T, String>`.
use hyperkitty_constraint_ds.Prelude.{ℕ, ◌≡◌, Text, Option, some, List}
use hyperkitty_constraint_ds.Worm.Bytes.{Bytes}

pub data Outcome (A : Type 0) : Type 0 where
  ok : A → Outcome A
  err : Text → Outcome A

-- `?`
infixl 5 ◌>>=◌
abbrev pub ◌>>=◌ : {X Y : Type 0} → Outcome X → (X → Outcome Y) → Outcome Y
◌>>=◌ (ok value) next = next value
◌>>=◌ (err message) next = err message

-- `text_of_i32 x` is the text of `x as i32`; `hex_digest` writes the bytes to a new hasher and
-- formats what it finalizes with `{:x}`; `array`, `object` and their like are the values that
-- `json!` makes.
pub record Platform : Type 1 where
  pub Float : Type 0
  pub of_nat : ℕ → Float
  pub neg : Float → Float
  pub sub : Float → Float → Float
  pub mul : Float → Float → Float
  pub div : Float → Float → Float
  pub display : Float → Text
  pub text_of_i32 : Float → Text
  pub into_bytes : Text → Bytes
  pub hex_digest : Bytes → Outcome Text
  pub Value : Type 0
  pub string : Text → Value
  pub number : Float → Value
  pub array : List Value → Value
  pub object : List (Text × Value) → Value
  pub as_array : Value → Option (List Value)
  pub to_string : Value → Text

-- Writing to a hasher does not fail, and an array is read back as one.
pub record IsPlatform (p : Platform) : Type 0 where
  pub hashes : (bytes : Bytes) → (h : Text) × (p.hex_digest bytes ≡ ok h)
  pub array_lem : (values : List p.Value) → p.as_array (p.array values) ≡ some values

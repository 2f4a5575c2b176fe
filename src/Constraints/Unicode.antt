-- ===== src/Constraints/Unicode.antt =====
-- The character classes of Rust's `char` that the lexer asks for. Their tables lie outside the
-- repository, so they are a parameter, with what their documentation says of ASCII characters.
use hyperkitty_constraint_ds.Prelude.{ℕ, ◌<◌, ◌≡◌, Bool, true, false, ◌&&◌, ◌||◌, leb, ◌==◌}

pub record Unicode : Type 0 where
  pub is_whitespace : ℕ → Bool
  pub is_alphabetic : ℕ → Bool
  pub is_numeric : ℕ → Bool

-- `char::is_alphanumeric` is documented as the union of the two classes.
abbrev pub is_alphanumeric : Unicode → ℕ → Bool
is_alphanumeric u c = u.is_alphabetic c || u.is_numeric c

abbrev pub is_ascii_digit : ℕ → Bool
is_ascii_digit c = leb b'0' c && leb c b'9'

abbrev pub is_ascii_letter : ℕ → Bool
is_ascii_letter c = (leb b'a' c && leb c b'z') || (leb b'A' c && leb c b'Z')

-- Space, and the characters from tab to carriage return.
abbrev pub is_ascii_space : ℕ → Bool
is_ascii_space c = c == 32 || (leb 9 c && leb c 13)

-- What the documentation of `char` says of the classes.
pub record IsUnicode (u : Unicode) : Type 0 where
  pub whitespace_ascii : (c : ℕ) → c < 128 → u.is_whitespace c ≡ is_ascii_space c
  pub alphabetic_ascii : (c : ℕ) → c < 128 → u.is_alphabetic c ≡ is_ascii_letter c
  pub numeric_ascii : (c : ℕ) → c < 128 → u.is_numeric c ≡ is_ascii_digit c
  pub alphabetic_not_whitespace : (c : ℕ) → u.is_alphabetic c ≡ true → u.is_whitespace c ≡ false

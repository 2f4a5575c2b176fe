-- ===== src/Routing/Words.antt =====
-- The words of an input and the text of several, as `split_whitespace` and `join` of
-- rust/crates/hyperkitty-routing/src/pipeline.rs make them.
use hyperkitty_constraint_ds.Prelude.{Text, List, [], ◌∷◌, ◌++◌, if◌then◌else◌}
use hyperkitty_constraint_ds.Prelude.Maps.{number_key}
use hyperkitty_constraint_ds.Routing.Platform.{Platform}

-- A word in front of the words after it, if it has a character.
unfoldable pub push_word : Text → List Text → List Text
push_word [] words = words
push_word (c ∷ word) words = (c ∷ word) ∷ words

-- `join`
unfoldable pub join : Text → List Text → Text
join separator [] = []
join separator (t ∷ []) = t
join separator (t ∷ u ∷ ts) = t ++ separator ++ join separator (u ∷ ts)

module _ (p : Platform) where
  -- `split_whitespace`: the word that the text starts with, and the words after it.
  unfoldable pub pieces : Text → Text × List Text
  unfolding push_word
  pieces [] = ([], [])
  pieces (c ∷ s) =
      let rest = pieces s in
      if p.is_whitespace c then ([], push_word rest.0 rest.1) else (c ∷ rest.0, rest.1)

  unfoldable pub split_whitespace : Text → List Text
  unfolding pieces push_word
  split_whitespace s = push_word (pieces s).0 (pieces s).1

-- ===== src/TopicMatch.antt =====
-- typescript/src/adapters/in-memory-bus.ts: `topicMatch` and `match`. The indices `pi` and `ki` into
-- the two arrays of words are modelled by the suffixes of the arrays that begin there.
pub mod Words
pub mod Relation
use messaging_poc.Common.{
  String, List, [], ◌∷◌, Bool, true, false, ◌||◌, if◌then◌else◌, ◌==◌, string_eq, is_empty,
}
use messaging_poc.TopicMatch.Words.{split_dots}

-- The loop over `n` of the case '#': the rest of the pattern matches some suffix of the key.
unfoldable pub any_suffix : (List String → Bool) → List String → Bool
any_suffix rest [] = rest []
any_suffix rest (word ∷ words) = rest (word ∷ words) || any_suffix rest words

-- The cases after '#': a word that is equal, or '*'.
unfoldable pub one_word : String → (List String → Bool) → List String → Bool
one_word p rest [] = false
one_word p rest (word ∷ words) = if p == "*" || p == word then rest words else false

unfoldable pub match : List String → List String → Bool
unfolding any_suffix one_word
match [] words = is_empty words
match (p ∷ ps) words = if p == "#" then any_suffix (match ps) words else one_word p (match ps) words

unfoldable pub topic_match : String → String → Bool
unfolding match
topic_match binding key = match (split_dots binding) (split_dots key)

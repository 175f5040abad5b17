-- ===== src/TopicMatch/Relation.antt =====
-- What a binding means, as a relation, and that `match` decides it.
use messaging_poc.Common.{
  String, List, [], ◌∷◌, Bool, true, ◌==◌, ==_iff, string_eq, ◌≡◌, refl, ◌↔◌, ◌⊎◌, inl, inr, arith,
  Bool-cases,
}
use messaging_poc.TopicMatch.{any_suffix, one_word, match}

-- A binding is a list of words; '*' stands for one word and '#' for any number of words.
pub data Matches : List String → List String → Type 0 where
  done : Matches [] []
  skip : {p : String} {ps words : List String} → p ≡ "#" → Matches ps words → Matches (p ∷ ps) words
  absorb :
      {p word : String} {ps words : List String}
      → p ≡ "#"
      → Matches (p ∷ ps) words
      → Matches (p ∷ ps) (word ∷ words)
  star :
      {p word : String} {ps words : List String}
      → p ≡ "*"
      → Matches ps words
      → Matches (p ∷ ps) (word ∷ words)
  same :
      {p word : String} {ps words : List String}
      → p ≡ word
      → Matches ps words
      → Matches (p ∷ ps) (word ∷ words)

any_suffix_here :
    (f : List String → Bool) (words : List String) → f words ≡ true → any_suffix f words ≡ true
unfolding any_suffix
any_suffix_here f [] h = h
any_suffix_here f (word ∷ words) h = rw h

module _ (p : String) (ps : List String) (hash : p ≡ "#")
    (sound : (words : List String) → match ps words ≡ true → Matches ps words) where
  any_suffix_sound :
      (words : List String) → any_suffix (match ps) words ≡ true → Matches (p ∷ ps) words
  unfolding any_suffix
  any_suffix_sound [] h = skip hash (sound [] h)
  any_suffix_sound (word ∷ words) h = elim (Bool-cases (match ps (word ∷ words))) [
    | inl e ↦ skip hash (sound (word ∷ words) e)
    | inr e ↦ absorb hash (any_suffix_sound words (ground arith))
  ]

one_word_sound :
    (p : String) (ps : List String)
    → ((words : List String) → match ps words ≡ true → Matches ps words)
    → (words : List String) → one_word p (match ps) words ≡ true
    → Matches (p ∷ ps) words
unfolding one_word
one_word_sound p ps sound [] h = absurd (cc)
one_word_sound p ps sound (word ∷ words) h = elim (Bool-cases (p == "*")) [
  | inl e ↦ star ((==_iff p "*").0 e) (sound words (ground arith))
  | inr e ↦ elim (Bool-cases (p == word)) [
    | inl k ↦ same ((==_iff p word).0 k) (sound words (ground arith))
    | inr k ↦ absurd (ground arith)
  ]
]

match_sound : (ps words : List String) → match ps words ≡ true → Matches ps words
unfolding match
match_sound [] [] h = done
match_sound [] (word ∷ words) h = absurd (cc)
match_sound (p ∷ ps) words h = elim (Bool-cases (p == "#")) [
  | inl e ↦ any_suffix_sound p ps ((==_iff p "#").0 e) (match_sound ps) words (ground arith)
  | inr e ↦ one_word_sound p ps (match_sound ps) words (ground arith)
]

any_suffix_later :
    (f : List String → Bool) (word : String) (words : List String)
    → any_suffix f words ≡ true
    → any_suffix f (word ∷ words) ≡ true
unfolding any_suffix
any_suffix_later f word words h = ground arith

-- One word of the key against one word of the binding, once the rest matches.
match_step :
    (p word : String) (ps words : List String)
    → ((p == "*") ≡ true) ⊎ ((p == word) ≡ true)
    → match ps words ≡ true
    → match (p ∷ ps) (word ∷ words) ≡ true
unfolding match one_word
match_step p word ps words fits ih = elim (Bool-cases (p == "#")) [
  | inl e ↦ rw e (any_suffix_later (match ps) word words (any_suffix_here (match ps) words ih))
  | inr e ↦ ground arith
]

match_complete : {ps words : List String} → Matches ps words → match ps words ≡ true
unfolding match
match_complete done = refl
match_complete (skip {p = p} {ps = ps} {words = words} e m) =
    let hash : (p == "#") ≡ true = (==_iff p "#").1 e in
    rw hash (any_suffix_here (match ps) words (match_complete m))
match_complete (absorb {p = p} {word = word} {ps = ps} {words = words} e m) =
    let hash : (p == "#") ≡ true = (==_iff p "#").1 e in
    rw hash (any_suffix_later (match ps) word words (rw hash at (match_complete m)))
match_complete (star {p = p} {word = word} {ps = ps} {words = words} e m) =
    match_step p word ps words (inl ((==_iff p "*").1 e)) (match_complete m)
match_complete (same {p = p} {word = word} {ps = ps} {words = words} e m) =
    match_step p word ps words (inr ((==_iff p word).1 e)) (match_complete m)

-- The matcher accepts a list of words exactly if the binding allows it, where '*' stands for one
-- word and '#' for any number of words, none included.
pub match_iff : (ps words : List String) → (match ps words ≡ true) ↔ Matches ps words
match_iff ps words = (match_sound ps words, match_complete)

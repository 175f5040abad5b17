-- ===== src/Artemis/Selector.antt =====
-- The selectors and the settlement of the Artemis adapter.
use text.Mathlib.TextLemmas.{nil-append, cons-append}
use messaging_poc.Common.{
  String, Bool, true, false, ◌≡◌, refl, Bool-cases, inl, inr, arith, List, Option, none, some,
  length, ◌≤◌, subst, sym,
}
use messaging_poc.Settlement.{Settlement, acked, nacked, settle_all-effective, effective, calls_of}
use messaging_poc.Artemis.{
  is_wildcard, to_like, has_wildcard, MessageSelector, like, equals, to_selector, artemis_settle,
  artemis_deliver,
}

-- The text of a selector.
abbrev pub text_of : MessageSelector → String
text_of (like s) = s
text_of (equals s) = s

clean : (s : String) → has_wildcard (to_like s) ≡ false
unfolding has_wildcard to_like
clean String.[] = refl
clean (String.◌∷◌ c s) = elim (Bool-cases (is_wildcard c)) [
  | inl w ↦ rw (w, cons-append, nil-append) (clean s)
  | inr n ↦ rw n (ground (arith, n, clean s))
]

-- No selector has a '*' or a '#' left, which the broker would read as plain text.
pub to_selector-clean : (s : String) → has_wildcard (text_of (to_selector s)) ≡ false
unfolding to_selector
to_selector-clean s = elim (Bool-cases (has_wildcard s)) [ inl w ↦ rw w (clean s) | inr n ↦ rw n n ]

one_call : (s : Option Settlement) → length (calls_of artemis_settle s) ≤ 1
unfolding artemis_settle
one_call none = omega arith
one_call (some acked) = omega arith
one_call (some (nacked true)) = omega arith
one_call (some (nacked false)) = omega arith

-- A delivery accepts, modifies or rejects the message once at most, as the settlement that counts says.
pub artemis_deliver-once :
    (ss : List Settlement) (threw : Bool)
    → (artemis_deliver ss threw ≡ calls_of artemis_settle (effective ss threw))
      × (length (artemis_deliver ss threw) ≤ 1)
unfolding artemis_deliver
artemis_deliver-once ss threw =
    let same = settle_all-effective artemis_settle ss threw in
    (same, subst (λ cs. length cs ≤ 1) (sym same) (one_call (effective ss threw)))

-- ===== src/Scenarios/Shared.antt =====
-- The judgement of S9 against what it stands for.
use messaging_poc.Common.{
  ◌≤◌, List, [], ◌∷◌, ◌++◌, Bool, true, false, not, ◌&&◌, ◌||◌, if◌then◌else◌, ◌≡◌, ◌≢◌, refl, sym,
  ◌∙◌, ◌↔◌, Bool-cases, inl, inr, arith, length, is_empty, contains, Distinct, StrictEq, string_eq,
  nat_eq, nat_eq_iff, String,
}
use messaging_poc.Scenarios.Competing.{ByConsumer, message_count, judge_split}
use messaging_poc.Scenarios.Values.{unique}
use messaging_poc.Scenarios.Verdict.{Verdict, fails, accepts}

module _ {A : Type 0} ⦃e : StrictEq A⦄ where
  length-unique : (xs : List A) → length (unique xs) ≤ length xs
  unfolding unique
  length-unique [] = omega arith
  length-unique (x ∷ xs) =
      let ih = length-unique xs in
      elim (Bool-cases (contains xs x)) [
        | inl h ↦ rw h (omega (arith, ih))
        | inr h ↦ rw h (omega (arith, ih))
      ]

  -- A set is as large as the list iff no element stands twice.
  pub unique-Distinct : (xs : List A) → (length (unique xs) ≡ length xs) ↔ Distinct xs
  unfolding unique
  unique-Distinct [] = (λ h. tt, λ h. refl)
  unique-Distinct (x ∷ xs) =
      let less = length-unique xs in
      let ih = unique-Distinct xs in
      elim (Bool-cases (contains xs x)) [
        | inl h ↦ rw (h, unique) (λ same. absurd (omega (arith, less, same)), λ d. absurd (cc))
        | inr h ↦
            rw (h, unique)
              (λ same. (refl, ih.0 (omega (arith, same))), λ d. omega (arith, ih.1 d.1))
      ]

-- The wait was in time, each of the messages was handled once, and each consumer handled some.
pub record IsShared (ok : Bool) (l : ByConsumer) : Type 0 where
  pub in_time : ok ≡ true
  pub complete : length (l.first ++ l.second) ≡ message_count
  pub once : Distinct (l.first ++ l.second)
  pub first_busy : l.first ≢ []
  pub second_busy : l.second ≢ []

fails_if :
    (wrong : Bool) (detail : String) (rest : Verdict)
    → accepts (if wrong then fails detail else rest) ≡ (not wrong && accepts rest)
fails_if true detail rest = refl
fails_if false detail rest = refl

five_tests :
    (a b c d e : Bool)
    → ((not (not a || not b) && (not (not c) && (not (d || e) && true))) ≡ true)
      ↔ ((a ≡ true) × (b ≡ true) × (c ≡ true) × (d ≡ false) × (e ≡ false))
five_tests a b c d e = ground arith

is_empty_iff : {A : Type 0} (xs : List A) → (is_empty xs ≡ false) ↔ (xs ≢ [])
is_empty_iff [] = (λ h e. absurd (cc), λ h. absurd (h refl))
is_empty_iff (x ∷ xs) = (λ h e. absurd (cc), λ h. refl)

-- S9 passes iff its wait was in time, ten messages were handled, none of them twice, and each consumer handled
-- some.
pub judge_split-IsShared :
    (ok : Bool) (l : ByConsumer) → (accepts (judge_split ok l) ≡ true) ↔ IsShared ok l
unfolding judge_split
judge_split-IsShared ok l =
    let all = l.first ++ l.second in
    let tests =
      five_tests ok (nat_eq (length all) message_count) (nat_eq (length (unique all)) message_count)
        (is_empty l.first) (is_empty l.second) in
    let once = unique-Distinct all in
    rw
      (
        fails_if (not ok || not (nat_eq (length all) message_count)) _ _,
        fails_if (not (nat_eq (length (unique all)) message_count)) _ _,
        fails_if (is_empty l.first || is_empty l.second) _ _,
      )
      (
        λ e.
            let t = tests.0 e in
            let ten = (nat_eq_iff (length all) message_count).0 t.1 in
            record {
              in_time = t.0;
              complete = ten;
              once = once.0 ((nat_eq_iff _ message_count).0 t.2 ∙ sym ten);
              first_busy = (is_empty_iff l.first).0 t.3;
              second_busy = (is_empty_iff l.second).0 t.4;
            },
        λ h. tests.1 (
          h.in_time,
          (nat_eq_iff _ _).1 h.complete,
          (nat_eq_iff _ _).1 (once.1 h.once ∙ h.complete),
          (is_empty_iff l.first).1 h.first_busy,
          (is_empty_iff l.second).1 h.second_busy,
        ),
      )

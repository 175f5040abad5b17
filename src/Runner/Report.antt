-- ===== src/Runner/Report.antt =====
-- The report of the runner: one result for each scenario, each counted once.
use messaging_poc.Common.{
  ℕ, suc, sym, All, ◌+◌, String, List, [], ◌∷◌, ◌++◌, map, Bool, Option, none, some, ◌≡◌, refl, ap,
  if◌then◌else◌, inl, inr, length, keep, arith, ◌∙◌, Bool-cases,
}
use messaging_poc.Abstractions.{Capabilities, BusCapabilities}
use messaging_poc.Port.{Op, Outcome, returned, threw}
use messaging_poc.Runner.{
  ScenarioStatus, pass, fail, unsupported, skipped, ScenarioResult, Scenario, na_result,
  fail_result, reported, run_one, run_all, run_connected, run_bus, run_suite, same_status, count_by,
}

length-map {ℓ κ} :
    {A : Type ℓ} {B : Type κ} (f : A → B) (xs : List A) → length (map f xs) ≡ length xs
length-map f [] = refl
length-map f (x ∷ xs) = ap suc (length-map f xs)

map-map {ℓ κ μ} :
    {A : Type ℓ} {B : Type κ} {C : Type μ} (f : B → C) (g : A → B) (h : A → C)
    → ((a : A) → f (g a) ≡ h a)
    → (xs : List A) → map f (map g xs) ≡ map h xs
map-map f g h e [] = refl
map-map f g h e (x ∷ xs) = rw (e x) (ap (λ t. h x ∷ t) (map-map f g h e xs))

map-append {ℓ κ} :
    {A : Type ℓ} {B : Type κ} (f : A → B) (xs ys : List A) → map f (xs ++ ys) ≡ map f xs ++ map f ys
map-append f [] ys = refl
map-append f (x ∷ xs) ys = ap (λ t. f x ∷ t) (map-append f xs ys)

module _ {W : Type 0} where
  -- A scenario reports under its own name, where it does report.
  pub record IsNamed (s : Scenario W) : Type 0 where
    pub own_name :
        (w w' : W) (result : ScenarioResult)
        → s.run w ≡ (returned result, w')
        → result.name ≡ s.name

  reported-name :
      (name : String) (o : Outcome ScenarioResult × W)
      → ((w' : W) (result : ScenarioResult) → o ≡ (returned result, w') → result.name ≡ name)
      → (reported name o).0.name ≡ name
  unfolding reported fail_result
  reported-name name (returned result, w) named = named w result refl
  reported-name name (threw e, w) named = refl

  names_of :
      (ss : List (Scenario W)) (w : W)
      → All IsNamed ss
      → map (λ r. r.name) (run_all ss w).0 ≡ map (λ s. s.name) ss
  unfolding run_all run_one
  names_of [] w h = refl
  names_of (s ∷ ss) w h =
      rw (reported-name s.name (s.run w) (h.0.own_name w))
        (ap (λ t. s.name ∷ t) (names_of ss (run_one s w).1 h.1))

  connected_names :
      (ss : List (Scenario W)) (o : Outcome Unit × W)
      → All IsNamed ss
      → map (λ r. r.name) (run_connected ss o).0 ≡ map (λ s. s.name) ss
  unfolding run_connected fail_result
  connected_names ss (threw e, w) h = map-map (λ r. r.name) _ (λ s. s.name) (λ s. refl) ss
  connected_names ss (returned u, w) h = names_of ss w h

  bus_names :
      (bus : Option BusCapabilities) (connect_bus : Op W Unit) (ss : List (Scenario W)) (w : W)
      → All IsNamed ss
      → map (λ r. r.name) (run_bus bus connect_bus ss w).0 ≡ map (λ s. s.name) ss
  unfolding run_bus na_result
  bus_names none connect_bus ss w h = map-map (λ r. r.name) _ (λ s. s.name) (λ s. refl) ss
  bus_names (some bus) connect_bus ss w h = connected_names ss (connect_bus w) h

  -- If the scenarios report under their own names, the report has exactly one result for each scenario,
  -- in their order, whatever throws and whether or not the adapter has a bus and connects it.
  pub run_suite-names :
      (c : Capabilities) (connect_bus : Op W Unit) (ss bs : List (Scenario W)) (w : W)
      → All IsNamed ss
      → All IsNamed bs
      → map (λ (r : ScenarioResult). r.name) (run_suite c connect_bus ss bs w).0
        ≡ map (λ (s : Scenario W). s.name) (ss ++ bs)
  unfolding run_suite
  run_suite-names c connect_bus ss bs w hs hb =
      map-append (λ r. r.name) (run_all ss w).0 (run_bus c.bus connect_bus bs (run_all ss w).1).0
      ∙ rw (names_of ss w hs, bus_names c.bus connect_bus bs (run_all ss w).1 hb)
          (sym (map-append (λ s. s.name) ss bs))

counted_once :
    (status : ScenarioStatus) (n p u f s : ℕ)
    → p + u + f + s ≡ n
    → (if same_status status pass then suc p else p)
        + (if same_status status unsupported then suc u else u)
        + (if same_status status fail then suc f else f)
        + (if same_status status skipped then suc s else s)
      ≡ suc n
counted_once pass n p u f s h = omega (arith, h)
counted_once fail n p u f s h = omega (arith, h)
counted_once unsupported n p u f s h = omega (arith, h)
counted_once skipped n p u f s h = omega (arith, h)

length-keep_cons {ℓ} :
    {A : Type ℓ} (t : A → Bool) (x : A) (xs : List A)
    → length (keep t (x ∷ xs)) ≡ (if t x then suc (length (keep t xs)) else length (keep t xs))
length-keep_cons t x xs = elim (Bool-cases (t x)) [ inl h ↦ rw h refl | inr h ↦ rw h refl ]

-- The four counts of a report make up all its results.
pub count_by-total :
    (rs : List ScenarioResult)
    → count_by rs pass + count_by rs unsupported + count_by rs fail + count_by rs skipped
      ≡ length rs
unfolding count_by
count_by-total [] = omega arith
count_by-total (r ∷ rs) =
    rw
      (
        length-keep_cons (λ r. same_status r.status pass) r rs,
        length-keep_cons (λ r. same_status r.status unsupported) r rs,
        length-keep_cons (λ r. same_status r.status fail) r rs,
        length-keep_cons (λ r. same_status r.status skipped) r rs,
      )
      (counted_once r.status (length rs) _ _ _ _ (count_by-total rs))

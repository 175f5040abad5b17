-- ===== src/Entry/Exit.antt =====
-- The exit code of a run.
use messaging_poc.Common.{
  String, List, [], ◌∷◌, map, All, Bool, true, false, not, Option, none, some, ◌≡◌, ◌≢◌, refl,
  subst, ◌⊎◌, ◌↔◌, Bool-cases, inl, inr, if◌then◌else◌, contains, string_eq, or_else, arith, ◌==◌,
  ◌&&◌, ◌||◌,
}
use messaging_poc.Port.{Failure, Outcome, returned, threw}
use messaging_poc.Registry.{known_brokers}
use messaging_poc.Runner.{
  ScenarioResult, ScenarioStatus, pass, fail, unsupported, skipped, same_status,
}
use messaging_poc.Scenarios.Program.{◌>>=◌, ◌>>◌, ◌finally◌, ◌catch◌, total}
use messaging_poc.Scenarios.Suite.{Adapter, suite}
use messaging_poc.Scenarios.Values.{any_of}
use messaging_poc.Scenarios.Reports.{suite_names, suite-names}
use messaging_poc.Scenarios.Returns.{Returns, HasReturned}
use messaging_poc.Entry.{
  RunReport, Ending, refuses, unknown_argument, exits, has_failed, exit_code, brokers_of,
  run_against, run_brokers, main, add_report, to_lower_case,
}

-- The results have the names of the suites, in order.
abbrev pub IsComplete : RunReport → Type 0
IsComplete report = map (λ (r : ScenarioResult). r.name) report.results ≡ suite_names

-- No scenario failed.
abbrev pub IsFine : RunReport → Type 0
IsFine report = All (λ r. r.status ≢ fail) report.results

-- The brokers that an argument stands for.
abbrev pub named : String → List String
named arg = if arg == "all" then "artemis" ∷ "rabbitmq" ∷ "kafka" ∷ [] else arg ∷ []

module _ {A : Type 0} (t : A → Bool) (P : A → Type 0) (test : (a : A) → (t a ≡ false) ↔ P a) where
  any_of-none : (xs : List A) → (any_of t xs ≡ false) ↔ All P xs
  unfolding any_of
  any_of-none [] = (λ h. tt, λ h. refl)
  any_of-none (x ∷ xs) = elim (Bool-cases (t x)) [
    | inl h ↦ rw h (λ e. absurd (cc), λ p. absurd (cc ((test x).1 p.0)))
    | inr h ↦ rw h (λ e. ((test x).0 h, (any_of-none xs).0 e), λ p. (any_of-none xs).1 p.1)
  ]

is_fail : (s : ScenarioStatus) → (same_status s fail ≡ false) ↔ (s ≢ fail)
is_fail pass = (λ h e. absurd (cc), λ h. refl)
is_fail fail = (λ h e. absurd (cc), λ h. absurd (h refl))
is_fail unsupported = (λ h e. absurd (cc), λ h. refl)
is_fail skipped = (λ h e. absurd (cc), λ h. refl)

no_failure : (report : RunReport) → (has_failed report ≡ false) ↔ IsFine report
unfolding has_failed
no_failure report =
    any_of-none (λ r. same_status r.status fail) (λ r. r.status ≢ fail) (λ r. is_fail r.status)
      report.results

exit_code-IsFine : (reports : List RunReport) → (exit_code reports ≡ 0) ↔ All IsFine reports
unfolding exit_code
exit_code-IsFine reports =
    let none_failed = any_of-none has_failed IsFine no_failure reports in
    elim (Bool-cases (any_of has_failed reports)) [
      | inl h ↦
          rw (h, exit_code) (λ e. absurd (ground (arith, e)), λ f. absurd (cc (none_failed.1 f)))
      | inr h ↦ rw (h, exit_code) (λ e. none_failed.0 h, λ f. refl)
    ]

exit_code-bit : (reports : List RunReport) → (exit_code reports ≡ 0) ⊎ (exit_code reports ≡ 1)
unfolding exit_code
exit_code-bit reports = elim (Bool-cases (any_of has_failed reports)) [
  | inl h ↦ rw (h, exit_code) (inr refl)
  | inr h ↦ rw (h, exit_code) (inl refl)
]

either : (a b : Bool) → (not a && not b) ≡ false → (a || b) ≡ true
either true b h = refl
either false true h = refl
either false false h = absurd (cc)

neither : (a b : Bool) → (not a && not b) ≡ true → (a ≡ false) × (b ≡ false)
neither true b h = absurd (cc)
neither false true h = absurd (cc)
neither false false h = (refl, refl)

brokers_of-named : (arg : String) → brokers_of arg ≡ named arg
unfolding brokers_of
brokers_of-named arg = elim (Bool-cases (arg == "all")) [
  | inl all ↦ rw (all, brokers_of, named) refl
  | inr one ↦ rw (one, brokers_of, named) refl
]

module _ {W : Type 0 → Type 0} {Handle Info Token : Type 0} where
  -- A run against an adapter: nothing if it does not connect, and else the suites and the disposal.
  pub data IsRunOf (scheduler : Adapter W Handle Info Token) (w : W Unit)
      : Option RunReport → W Unit → Type 0 where
    unreachable :
        (e : Failure) (w' : W Unit)
        → scheduler.connect w ≡ (threw e, w')
        → IsRunOf scheduler w none w'
    ran :
        (w' w'' : W Unit)
        → scheduler.connect w ≡ (returned tt, w')
        → scheduler.dispose (suite scheduler w').1 ≡ (returned tt, w'')
        → IsRunOf scheduler w
            (some (record {
              broker = scheduler.name;
              capabilities = scheduler.capabilities;
              results = (suite scheduler w').0;
            }))
            w''

  abbrev HasRun :
      Adapter W Handle Info Token → W Unit → Outcome (Option RunReport) × W Unit → Type 0
  HasRun scheduler w r =
      (o : Option RunReport) × (w' : W Unit) × (r ≡ (returned o, w')) × IsRunOf scheduler w o w'

  disposed_of :
      (scheduler : Adapter W Handle Info Token) (w w' : W Unit)
      → scheduler.connect w ≡ (returned tt, w')
      → HasReturned (scheduler.dispose (suite scheduler w').1)
      → HasRun scheduler w (run_against scheduler w)
  unfolding run_against ◌>>=◌ ◌>>◌ ◌finally◌ ◌catch◌ total
  disposed_of scheduler w w' e (tt, w'', d) = (_, w'', rw e (rw d refl), ran w' w'' e d)

  run_against-HasRun :
      (scheduler : Adapter W Handle Info Token)
      → Returns scheduler.dispose
      → (w : W Unit) (c : Outcome Unit × W Unit) → scheduler.connect w ≡ c
      → HasRun scheduler w (run_against scheduler w)
  unfolding run_against ◌>>=◌ ◌>>◌ ◌finally◌ ◌catch◌ total
  run_against-HasRun scheduler disposes w (returned tt, w') e =
      disposed_of scheduler w w' e (disposes.returns (suite scheduler w').1)
  run_against-HasRun scheduler disposes w (threw x, w') e =
      (none, w', rw e refl, unreachable x w' e)

  run-IsComplete :
      (scheduler : Adapter W Handle Info Token) (w w' : W Unit) (report : RunReport)
      → IsRunOf scheduler w (some report) w'
      → IsComplete report
  run-IsComplete scheduler w w' report (ran v v' e d) = suite-names scheduler v

  module _ (create_scheduler : String → Adapter W Handle Info Token) where
    -- The runs against some brokers, in order, and the reports of those that connected.
    pub data AreRuns : List String → W Unit → List RunReport → W Unit → Type 0 where
      no_more : {w : W Unit} → AreRuns [] w [] w
      one_more :
          {id : String} {ids : List String} {w w' w'' : W Unit} {o : Option RunReport}
          {reports : List RunReport}
          → IsRunOf (create_scheduler id) w o w'
          → AreRuns ids w' reports w''
          → AreRuns (id ∷ ids) w (add_report o reports) w''

    AreRuns-All :
        {ids : List String} {w w' : W Unit} {reports : List RunReport}
        → AreRuns ids w reports w'
        → All IsComplete reports
    AreRuns-All no_more = tt
    AreRuns-All (one_more (unreachable e v c) rest) = AreRuns-All rest
    AreRuns-All (one_more (ran v v' c d) rest) =
        (run-IsComplete _ _ _ _ (ran v v' c d), AreRuns-All rest)

    run_brokers-AreRuns :
        ((id : String) → Returns (create_scheduler id).dispose)
        → (ids : List String) (w : W Unit)
        → (reports : List RunReport) × (w' : W Unit) × (run_brokers create_scheduler ids w
            ≡ (returned reports, w'))
          × AreRuns ids w reports w'
    unfolding run_brokers ◌>>=◌
    run_brokers-AreRuns disposes [] w = ([], w, refl, no_more)
    run_brokers-AreRuns disposes (id ∷ ids) w =
        let s = create_scheduler id in
        let (o, w', e, first) = run_against-HasRun s (disposes id) w (s.connect w) refl in
        let (reports, w'', es, rest) = run_brokers-AreRuns disposes ids w' in
        (add_report o reports, w'', rw e (rw es refl), one_more first rest)

    -- How `main` ends at an argument: it refuses, and touches no adapter; or it runs the brokers.
    abbrev pub IsSound : String → W Unit → Ending → W Unit → Type 0
    IsSound arg w (refuses code text) w' =
        ((arg == "all") ≡ false)
        × (contains known_brokers arg ≡ false)
        × (code ≡ 2)
        × (text ≡ unknown_argument arg)
        × (w' ≡ w)
    IsSound arg w (exits code reports) w' =
        ((arg == "all" || contains known_brokers arg) ≡ true)
        × AreRuns (named arg) w reports w'
        × All IsComplete reports
        × ((code ≡ 0) ⊎ (code ≡ 1))
        × ((code ≡ 0) ↔ All IsFine reports)

    -- If no adapter throws in `dispose`, then whatever else the brokers do and throw, `main` ends. If its
    -- argument, in lower case and `in-memory` if there is none, names no broker and is not `all`, it exits
    -- with the code 2 and the text for that argument, and calls no adapter. Else it runs the broker of
    -- the argument, or Artemis, RabbitMQ and Kafka in this order for `all`: each is connected, and if
    -- that does not throw, its suites are run, it is disposed, and there is one report of these
    -- results, the twenty of the suites in order. It exits with the code 0 if no result in the reports
    -- is a failure, and with the code 1 otherwise.
    pub main-IsSound :
        (argument : Option String) (w : W Unit)
        → ((id : String) → Returns (create_scheduler id).dispose)
        → (ending : Ending) × (w' : W Unit) × (main create_scheduler argument w
            ≡ (returned ending, w'))
          × IsSound (to_lower_case (or_else argument "in-memory")) w ending w'
    unfolding main ◌>>=◌
    main-IsSound argument w disposes =
        let arg = to_lower_case (or_else argument "in-memory") in
        elim (Bool-cases (not (arg == "all") && not (contains known_brokers arg))) [
          | inl unknown ↦
              let (all, known) = neither (arg == "all") (contains known_brokers arg) unknown in
              (refuses 2 (unknown_argument arg), w, rw unknown refl, (all, known, refl, refl, refl))
          | inr known ↦
              let (reports, w', e, runs) = run_brokers-AreRuns disposes (brokers_of arg) w in
              (
                exits (exit_code reports) reports,
                w',
                rw known (rw e refl),
                (
                  either (arg == "all") (contains known_brokers arg) known,
                  subst (λ ids. AreRuns ids w reports w') (brokers_of-named arg) runs,
                  AreRuns-All runs,
                  exit_code-bit reports,
                  exit_code-IsFine reports,
                ),
              )
        ]

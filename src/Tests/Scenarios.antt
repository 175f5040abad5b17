-- ===== src/Tests/Scenarios.antt =====
-- The suites and the entry point on a small adapter: what is published is handled at once, and the broker
-- can neither cancel nor list.
use messaging_poc.Common.{
  ℕ, ◌+◌, String, List, [], ◌∷◌, ◌++◌, map, none, some, ◌≡◌, refl, if◌then◌else◌, decimal, ◌↔◌,
  true, false, string_eq, ◌==◌, or_else,
}
use messaging_poc.Abstractions.{Destination}
use messaging_poc.Port.{returned, threw, Op, not_supported}
use messaging_poc.Registry.{in_memory_capabilities, in_memory_bus_capabilities}
use messaging_poc.Runner.{ScenarioResult, passed_result}
use messaging_poc.Scenarios.Scheduling.{immediate_delivery}
use messaging_poc.Scenarios.Program.{pure, ◌>>=◌, ◌>>◌, ◌finally◌, pass}
use messaging_poc.Scenarios.Stage.{named, Message, Act, assigns, Handler, BusStage, SchedulerStage}
use messaging_poc.Scenarios.Groups.{Handled, judge_groups, group_fault, disorder, misplacement}
use messaging_poc.Scenarios.Competing.{ByConsumer, judge_split}
use messaging_poc.Scenarios.Shared.{IsShared, judge_split-IsShared}
use messaging_poc.Scenarios.Groups.Judged.{IsGrouped, judge_groups-IsGrouped}
use messaging_poc.Scenarios.Verdict.{accepts}
use messaging_poc.Scenarios.Values.{range}
use messaging_poc.Scenarios.Returns.{Returns}
use messaging_poc.Entry.{Ending, main, to_lower_case}
use messaging_poc.Entry.Exit.{IsSound, main-IsSound}
use messaging_poc.Demo.Stage.{Timeline, DemoStage}
use messaging_poc.Scenarios.Suite.{Adapter, suite}
use messaging_poc.Scenarios.Reports.{suite_names, suite-names}

record Toy (L : Type 0) : Type 0 where
  variables : L
  clock : ℕ
  handlers : List (Destination × Handler L)

abbrev only_assign : {L : Type 0} → List (Act L) → L → L
only_assign [] l = l
only_assign (assigns f ∷ acts) l = only_assign acts (f l)
only_assign (_ ∷ acts) l = only_assign acts l

abbrev message : String → Message
message body = record {
  body = body;
  delivery_count = some 1;
  reply_to = none;
  correlation_id = none;
}

abbrev deliver : {L : Type 0} → Destination → String → List (Destination × Handler L) → L → L
deliver d body [] l = l
deliver d body ((topic, handler) ∷ rest) l =
    deliver d body rest (if topic == d then only_assign (handler (message body) 0 l) l else l)

abbrev toy_publish : {L : Type 0} → Destination → String → Op (Toy L) Unit
toy_publish d body w = (returned tt, record w { variables = deliver d body w.handlers w.variables })

abbrev toy_attach : {L : Type 0} → Destination → Handler L → Op (Toy L) ℕ
toy_attach d handler w = (returned 0, record w { handlers = w.handlers ++ (d, handler) ∷ [] })

abbrev toy_nonce : {L : Type 0} → Op (Toy L) String
toy_nonce w = (returned (decimal w.clock), record w { clock = w.clock + 1 })

abbrev toy_delay : {L : Type 0} → ℕ → Op (Toy L) Unit
toy_delay ms w = (returned tt, record w { clock = w.clock + ms })

abbrev no_api : {A L : Type 0} → Op (Toy L) A
no_api w = (threw (not_supported "cancel" "toy" none), w)

abbrev toy_bus : (L : Type 0) → BusStage L (Toy L) ℕ
toy_bus L = record {
  capabilities = in_memory_bus_capabilities;
  variables = λ w. w.variables;
  clock = λ w. w.clock;
  nonce = toy_nonce;
  publish = λ d body key o. toy_publish d body;
  subscribe = λ d handler o. toy_attach d handler;
  unsubscribe = λ token. pure tt;
  wait_until = λ predicate ms w. (returned (predicate w.variables), w);
  delay = toy_delay;
}

abbrev toy_scheduler : (L : Type 0) → SchedulerStage L (Toy L) ℕ ℕ ℕ
toy_scheduler L = record {
  variables = λ w. w.variables;
  clock = λ w. w.clock;
  nonce = toy_nonce;
  send_now = toy_publish;
  schedule = λ d body at. pure 0;
  cancel = λ h. no_api;
  list_scheduled = λ d. no_api;
  handle_of = λ info d at. info;
  consume = λ d f. toy_attach d (λ m now l. assigns (f m.body) ∷ []);
  unsubscribe = λ token. pure tt;
  wait_until = λ predicate ms w. (returned (predicate w.variables), w);
  delay = toy_delay;
}

abbrev toy : Adapter Toy ℕ ℕ ℕ
toy = record {
  name = "toy";
  capabilities = in_memory_capabilities;
  connect = pure tt;
  connect_bus = pure tt;
  dispose = pure tt;
  enter = λ L first w. record { variables = first; clock = w.clock; handlers = [] };
  leave = λ L w. record { variables = tt; clock = w.clock; handlers = [] };
  scheduler = toy_scheduler;
  bus = toy_bus;
}

abbrev morning : Toy Unit
morning = record { variables = tt; clock = 0; handlers = [] }

suite-names_example : map (λ (r : ScenarioResult). r.name) (suite toy morning).0 ≡ suite_names
suite-names_example = suite-names toy morning

-- S1 passes on it.
immediate_delivery_test :
    (immediate_delivery
      (toy_scheduler (List String))
      "S1"
      (record { variables = []; clock = 0; handlers = [] })).0
    ≡ returned (passed_result "S1" "delivered immediately" 2)
unfolding immediate_delivery ◌>>=◌ ◌>>◌ ◌finally◌ named pass decimal
immediate_delivery_test = refl

-- Two consumers, of which the first handled the group a and the second the others.
abbrev pinned : Handled
pinned = record {
  first = map (λ n. record { group = "a"; seq = some n }) (range 0 6);
  second =
      map (λ n. record { group = "b"; seq = some n }) (range 0 6)
      ++ map (λ n. record { group = "c"; seq = some n }) (range 0 6);
}

judge_groups-IsGrouped_example : (accepts (judge_groups pinned) ≡ true) ↔ IsGrouped pinned
judge_groups-IsGrouped_example = judge_groups-IsGrouped pinned

judge_groups_test : accepts (judge_groups pinned) ≡ true
unfolding judge_groups group_fault disorder misplacement range
judge_groups_test = refl

abbrev toy_disposes : (id : String) → Returns toy.dispose
toy_disposes id = record { returns = λ w. (tt, w, refl) }

main-IsSound_example :
    (ending : Ending) × (w' : Toy Unit) × (main (λ id. toy) (some "In-Memory") morning
      ≡ (returned ending, w'))
    × IsSound (λ id. toy) (to_lower_case (or_else (some "In-Memory") "in-memory")) morning ending w'
main-IsSound_example = main-IsSound (λ id. toy) (some "In-Memory") morning toy_disposes

abbrev quiet : Timeline
quiet = record {
  said = [];
  crashed = [];
  fresh = [];
  observed = [];
  breaker_opened = false;
  attempts = 0;
  main = [];
  dlq = [];
}

abbrev toy_stage : DemoStage (Toy Timeline) ℕ
toy_stage = record {
  name = "toy";
  connect = pure tt;
  connect_bus = pure tt;
  dispose = pure tt;
  bus = toy_bus Timeline;
  assign = λ f w. (returned tt, record w { variables = f w.variables });
  inject_failures = λ n. pure tt;
  resilient_publish = toy_publish;
  decorate = λ options listen. pure tt;
}

abbrev evening : Toy Timeline
evening = record { variables = quiet; clock = 0; handlers = [] }

abbrev shared : ByConsumer
shared = record {
  first = "0" ∷ "2" ∷ "4" ∷ "6" ∷ "8" ∷ [];
  second = "1" ∷ "3" ∷ "5" ∷ "7" ∷ "9" ∷ [];
}

judge_split-IsShared_example : (accepts (judge_split true shared) ≡ true) ↔ IsShared true shared
judge_split-IsShared_example = judge_split-IsShared true shared

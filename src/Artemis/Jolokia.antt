-- ===== src/Artemis/Jolokia.antt =====
-- typescript/src/adapters/artemis-jolokia.ts: `JolokiaClient`. `fetch` is a parameter: a request in the
-- state of the outside, which gives a reply or throws. Of the JSON of a reply, the fields that the code
-- reads are modelled.
use messaging_poc.Common.{
  ℕ, String, List, [], ◌∷◌, Bool, Option, none, some, if◌then◌else◌, or_else, decimal, text_of,
  nat_eq,
}
use messaging_poc.Port.{error, Outcome, returned, threw, Op, after}

pub data JolokiaRequest : Type 0 where
  search : String → JolokiaRequest
  exec : String → String → List String → JolokiaRequest

-- An entry of `listScheduledMessages()`.
pub record ScheduledEntry : Type 0 where
  pub schedule_id : Option String
  pub message_id : Option String
  pub scheduled_delivery_time : Option ℕ

-- `json.value`, as far as the client tells its forms apart.
pub data JolokiaValue : Type 0 where
  names : List String → JolokiaValue
  entries : List ScheduledEntry → JolokiaValue
  number : ℕ → JolokiaValue
  other : JolokiaValue

-- The response of `fetch`, with its text and its JSON.
pub record HttpReply : Type 0 where
  pub ok : Bool
  pub http_status : ℕ
  pub text : String
  pub status : ℕ
  pub error_text : Option String
  pub value : JolokiaValue

abbrev pub anycast_pattern : String → String
anycast_pattern queue_name = text_of (
    "org.apache.activemq.artemis:broker=*,component=addresses,address=\"" ∷ queue_name
    ∷ "\",subcomponent=queues,routing-type=\"anycast\",queue=\"" ∷ queue_name ∷ "\"" ∷ [])

abbrev pub reply_outcome : HttpReply → Outcome JolokiaValue
reply_outcome r =
    if r.ok
    then (if nat_eq r.status 200
        then returned r.value
        else threw (
            error (
              text_of (
                "Jolokia error " ∷ decimal r.status ∷ ": " ∷ or_else r.error_text "unknown" ∷ []))))
    else threw (error (text_of ("Jolokia HTTP " ∷ decimal r.http_status ∷ ": " ∷ r.text ∷ [])))

abbrev pub first_name : JolokiaValue → Option String
first_name (names (n ∷ ns)) = some n
first_name _ = none

abbrev pub entries_of : JolokiaValue → List ScheduledEntry
entries_of (entries es) = es
entries_of _ = []

abbrev pub number_of : JolokiaValue → ℕ
number_of (number n) = n
number_of _ = 0

module _ {S : Type 0} (fetch : JolokiaRequest → Op S HttpReply) where
  unfoldable pub post : JolokiaRequest → Op S JolokiaValue
  post body s = after (λ r s'. (reply_outcome r, s')) (fetch body s)

  unfoldable pub find_queue_m_bean : String → Op S (Option String)
  unfolding post
  find_queue_m_bean queue_name s =
      after (λ value s'. (returned (first_name value), s'))
        (post (search (anycast_pattern queue_name)) s)

  -- `if (!mbean) return …`, else an operation of the queue.
  abbrev on_queue :
      {A : Type 0} → A → (JolokiaValue → A) → String → List String → Option String → Op S A
  unfolding post
  on_queue missing read operation arguments none s = (returned missing, s)
  on_queue missing read operation arguments (some mbean) s =
      after (λ value s'. (returned (read value), s')) (post (exec mbean operation arguments) s)

  unfoldable pub list_scheduled_messages : String → Op S (List ScheduledEntry)
  unfolding find_queue_m_bean
  list_scheduled_messages queue_name s =
      after (on_queue [] entries_of "listScheduledMessages()" []) (find_queue_m_bean queue_name s)

  unfoldable pub remove_messages : String → String → Op S ℕ
  unfolding find_queue_m_bean
  remove_messages queue_name filter s =
      after (on_queue 0 number_of "removeMessages(java.lang.String)" (filter ∷ []))
        (find_queue_m_bean queue_name s)

-- ===== src/Artemis.antt =====
-- typescript/src/adapters/artemis.ts: the class `ArtemisScheduler` over the bus port. The calls of rhea
-- are data (`ArtemisCall`), and the two addresses that come from the environment are arguments.
pub mod Links
pub mod Selector
pub mod Published
pub mod Jolokia
pub mod Management
use Prim.Native.Char.{Char, code}
use Prim.Native.String
use messaging_poc.Common.{
  ℕ, ◌+◌, String, List, [], ◌∷◌, ◌++◌, Bool, true, false, ◌||◌, Option, none, some, if◌then◌else◌,
  ◌==◌, string_eq, nat_eq, or_else, lookup, insert, ℤ,
}
use messaging_poc.Abstractions.{
  Destination, Headers, PublishOptions, SubscribeOptions, TopologyKind, BusCapabilities,
  Capabilities, truthy,
}
use messaging_poc.Settlement.{Settlement, acked, nacked, settle_all}

abbrev pub artemis_bus_capabilities : BusCapabilities
artemis_bus_capabilities = record {
  supports_topic = true;
  supports_fanout = true;
  supports_manual_ack = true;
  supports_dead_letter = true;
  reports_delivery_count = true;
  supports_dedup = true;
  supports_stream_replay = false;
  supports_message_groups = some true;
}

abbrev pub artemis_capabilities : Capabilities
artemis_capabilities = record {
  protocol = "AMQP 1.0";
  native_scheduling = true;
  supports_cancel = true;
  supports_list = true;
  bus = some artemis_bus_capabilities;
}

-- `rhea.Message`, with text properties.
pub record AmqpMessage : Type 0 where
  pub body : String
  pub application_properties : Headers
  pub group_id : Option String
  pub priority : Option ℤ
  pub reply_to : Option String
  pub correlation_id : Option String
  pub ttl : Option ℤ
  pub delivery_count : Option ℕ

-- `delivery.accept`, `.modified({ delivery_failed: true, … })` and `.reject`.
pub data ArtemisCall : Type 0 where
  accepts modifies rejects : ArtemisCall

abbrev pub set_property : String → Option String → Headers → Headers
set_property name none props = props
set_property name (some value) props = insert props name value

-- `{ ...props, ...headers }`
abbrev pub spread : Headers → Headers → Headers
spread props [] = props
spread props ((k, v) ∷ hs) = spread (insert props k v) hs

unfoldable pub application_properties : Destination → Option String → PublishOptions → Headers
application_properties topic routing_key o = set_property "_AMQ_GROUP_ID" (truthy o.group_id) (
    set_property "_AMQ_DUPL_ID" (truthy o.dedup_id)
      (spread (("routingKey", or_else routing_key topic) ∷ []) (or_else o.headers [])))

-- The message that `publish` sends.
unfoldable pub artemis_message : Destination → String → Option String → PublishOptions → AmqpMessage
unfolding application_properties
artemis_message topic payload routing_key o = record {
  body = payload;
  application_properties = application_properties topic routing_key o;
  group_id = truthy o.group_id;
  priority = o.priority;
  reply_to = truthy o.reply_to;
  correlation_id = truthy o.correlation_id;
  ttl = o.ttl_ms;
  delivery_count = none;
}

-- `/[*#]/` on a character.
abbrev pub is_wildcard : Char → Bool
is_wildcard c = nat_eq (code c) b'*' || nat_eq (code c) b'#'

-- `replace(/[*#]/g, '%')`
unfoldable pub to_like : String → String
to_like String.[] = String.[]
to_like (String.◌∷◌ c s) =
    if is_wildcard c then String.◌++◌ "%" (to_like s) else String.◌∷◌ c (to_like s)

-- `includes('*') || includes('#')`
unfoldable pub has_wildcard : String → Bool
has_wildcard String.[] = false
has_wildcard (String.◌∷◌ c s) = is_wildcard c || has_wildcard s

-- The selector `routingKey LIKE '…'` or `routingKey = '…'`.
pub data MessageSelector : Type 0 where
  like equals : String → MessageSelector

unfoldable pub to_selector : String → MessageSelector
unfolding to_like has_wildcard
to_selector routing_key =
    if has_wildcard routing_key then like (to_like routing_key) else equals routing_key

-- What a receiver is opened with.
pub record Source : Type 0 where
  pub address : Destination
  pub queue : String
  pub transient : Bool
  pub filter : Option MessageSelector

-- `if (kind === 'topic' && options.routingKey)`
abbrev pub source_filter : TopologyKind → Option String → Option MessageSelector
unfolding to_selector
source_filter TopologyKind.fanout key = none
source_filter TopologyKind.topic none = none
source_filter TopologyKind.topic (some key) = some (to_selector key)

-- `subscribe`: `ends` is `String.prototype.endsWith`, `dla` and `expiry` are the configured addresses
-- and `random` is the text that it may draw.
unfoldable pub artemis_source :
    (String → String → Bool)
    → Destination
    → Destination
    → Destination
    → SubscribeOptions
    → String
    → Source
unfolding source_filter
artemis_source ends dla expiry topic o random = record {
  address = if ends topic ".dlq" then dla else if ends topic ".expiry" then expiry else topic;
  queue = or_else o.subscriber_id random;
  transient = or_else o.transient false;
  filter = source_filter (or_else o.kind TopologyKind.topic) (truthy o.routing_key);
}

pub record ArtemisIncoming : Type 0 where
  pub destination : Destination
  pub body : String
  pub headers : Headers
  pub delivery_count : ℕ
  pub reply_to : Option String
  pub correlation_id : Option String
  pub group_id : Option String
  pub priority : Option ℤ

-- `a ?? b` where b may be missing too.
abbrev pub or_also : Option String → Option String → Option String
or_also none b = b
or_also (some a) b = some a

unfoldable pub artemis_incoming : Destination → AmqpMessage → ArtemisIncoming
artemis_incoming address m = record {
  destination = address;
  body = m.body;
  headers = m.application_properties;
  delivery_count = or_else m.delivery_count 0 + 1;
  reply_to = m.reply_to;
  correlation_id = m.correlation_id;
  group_id = or_also m.group_id (lookup m.application_properties "_AMQ_GROUP_ID");
  priority = m.priority;
}

unfoldable pub artemis_settle : Settlement → List ArtemisCall
artemis_settle acked = accepts ∷ []
artemis_settle (nacked requeue) = if requeue then modifies ∷ [] else rejects ∷ []

-- The listener of a receiver: what the handler settles, and a `nack` if it throws.
unfoldable pub artemis_deliver : List Settlement → Bool → List ArtemisCall
unfolding artemis_settle
artemis_deliver settles threw =
    settle_all artemis_settle false (if threw then settles ++ nacked true ∷ [] else settles)

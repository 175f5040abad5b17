-- ===== src/Artemis/Management.antt =====
-- typescript/src/adapters/artemis.ts: `sendNow`, `schedule`, `cancel` and `listScheduled`.
use messaging_poc.Common.{ℕ, zero, String, List, map, Option, none, some, or_else}
use messaging_poc.Abstractions.{Destination}
use messaging_poc.Port.{returned, Op, Scheduling, after}
use messaging_poc.Artemis.{artemis_capabilities}
use messaging_poc.Artemis.Jolokia.{
  JolokiaRequest, HttpReply, ScheduledEntry, remove_messages, list_scheduled_messages,
}
use Prim.Native.String

pub record ArtemisHandle : Type 0 where
  pub id : String
  pub destination : Destination
  pub deliver_at : ℕ

pub record ArtemisInfo : Type 0 where
  pub id : String
  pub destination : Destination
  pub deliver_at : Option ℕ

abbrev pub fqqn : Destination → String
fqqn destination = String.◌++◌ destination (String.◌++◌ "::" destination)

-- What the senders of the scheduler port send to an address: the text, `x-opt-delivery-time` and
-- `scheduleId`.
pub record Scheduled : Type 0 where
  pub address : String
  pub body : String
  pub delivery_time : Option ℕ
  pub schedule_id : Option String

abbrev pub artemis_send_now : Destination → String → Scheduled
artemis_send_now destination payload = record {
  address = fqqn destination;
  body = payload;
  delivery_time = none;
  schedule_id = none;
}

-- `id` is the random text.
abbrev pub artemis_schedule : Destination → String → ℕ → String → ArtemisHandle × Scheduled
artemis_schedule destination payload deliver_at id = (
  record { id = id; destination = destination; deliver_at = deliver_at },
  record {
    address = fqqn destination;
    body = payload;
    delivery_time = some deliver_at;
    schedule_id = some id;
  },
)

-- `m.scheduledDeliveryTime ? new Date(…) : undefined`
abbrev delivery_date : Option ℕ → Option ℕ
delivery_date none = none
delivery_date (some zero) = none
delivery_date (some at) = some at

abbrev pub entry_info : Destination → ScheduledEntry → ArtemisInfo
entry_info destination m = record {
  id = or_else m.schedule_id (or_else m.message_id "");
  destination = destination;
  deliver_at = delivery_date m.scheduled_delivery_time;
}

module _ {S : Type 0} (fetch : JolokiaRequest → Op S HttpReply) where
  unfoldable pub artemis_cancel : ArtemisHandle → Op S Unit
  unfolding remove_messages
  artemis_cancel handle s =
      after (λ removed s'. (returned tt, s'))
        (remove_messages fetch handle.destination
          (String.◌++◌ "scheduleId = '" (String.◌++◌ handle.id "'")) s)

  unfoldable pub artemis_list_scheduled : Destination → Op S (List ArtemisInfo)
  unfolding list_scheduled_messages
  artemis_list_scheduled destination s =
      after (λ raw s'. (returned (map (entry_info destination) raw), s'))
        (list_scheduled_messages fetch destination s)

  abbrev pub artemis_scheduling : Scheduling S ArtemisHandle ArtemisInfo
  artemis_scheduling = record {
    name = "Apache ActiveMQ Artemis";
    capabilities = artemis_capabilities;
    cancel = artemis_cancel;
    list_scheduled = artemis_list_scheduled;
  }

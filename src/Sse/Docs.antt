-- ===== src/Sse/Docs.antt =====
-- typescript/src/sse/domain/contract.ts, the types of the metadata, and typescript/src/sse/docs/generate.ts,
-- the generator of the two documents, up to the writing of the files.
pub mod Catalog
pub mod Channels
pub mod Contract
use messaging_poc.Common.{
  String, List, [], ◌∷◌, ◌++◌, map, Bool, true, false, ◌||◌, Option, none, some, if◌then◌else◌,
  ◌==◌, string_eq, or_else, lookup, insert, text_of, join, starts_with,
}
use messaging_poc.Abstractions.{Destination}
use messaging_poc.Sse.{Scope, scope_name}
use messaging_poc.Sse.Yaml.{yaml_scalar}
use Prim.Native.String

pub data OperationDirection : Type 0 where
  publish subscribe : OperationDirection

pub record FieldDoc : Type 0 where
  pub name : String
  pub type : String
  pub description : String

pub record OperationDoc : Type 0 where
  pub id : String
  pub summary : String
  pub direction : OperationDirection
  pub routing_key_pattern : String
  pub when : String

pub record AddressSchemeDoc : Type 0 where
  pub scope : Scope
  pub pattern : String
  pub description : String

pub record SseContract : Type 0 where
  pub channel : Destination
  pub channel_description : String
  pub address_schemes : List AddressSchemeDoc
  pub operations : List OperationDoc
  pub envelope_fields : List FieldDoc
  pub frame_fields : List FieldDoc

-- `op.direction`, which is also `verb`.
abbrev pub direction_name : OperationDirection → String
direction_name publish = "publish"
direction_name subscribe = "subscribe"

-- The lines that each element of a list pushes.
abbrev pub lines_of : {A : Type 0} → (A → List String) → List A → List String
lines_of f [] = []
lines_of f (x ∷ xs) = f x ++ lines_of f xs

-- `asyncApiType`
unfoldable pub async_api_type : String → String
unfolding starts_with
async_api_type type =
    if starts_with type "object" || type == "SseEnvelope" then "object" else "string"

-- `byPattern`: the operations of each routing key pattern, in order.
unfoldable pub group_operations :
    List (String × List OperationDoc) → List OperationDoc → List (String × List OperationDoc)
group_operations groups [] = groups
group_operations groups (op ∷ ops) =
    let list = or_else (lookup groups op.routing_key_pattern) [] in
    group_operations (insert groups op.routing_key_pattern (list ++ op ∷ [])) ops

unfoldable pub by_pattern : SseContract → List (String × List OperationDoc)
unfolding group_operations
by_pattern c = group_operations [] c.operations

-- `addressSchemes.find((a) => pattern.startsWith(`${a.scope}.`))`
unfoldable pub find_scheme : String → List AddressSchemeDoc → Option AddressSchemeDoc
unfolding starts_with
find_scheme pattern [] = none
find_scheme pattern (a ∷ schemes) =
    if starts_with pattern (text_of (scope_name a.scope ∷ "." ∷ []))
    then some a
    else find_scheme pattern schemes

abbrev pub parameter_lines : Option AddressSchemeDoc → List String
unfolding yaml_scalar
parameter_lines none = []
parameter_lines (some scheme) =
    text_of ("      " ∷ scope_name scheme.scope ∷ "Id:" ∷ [])
    ∷ text_of ("        description: " ∷ yaml_scalar scheme.description ∷ [])
    ∷ "        schema:"
    ∷ "          type: string"
    ∷ []

abbrev pub message_name : OperationDirection → String
message_name subscribe = "SseFrame"
message_name publish = "SseEnvelope"

abbrev pub operation_lines : OperationDoc → List String
unfolding yaml_scalar
operation_lines op =
    text_of ("    " ∷ direction_name op.direction ∷ ":" ∷ [])
    ∷ text_of ("      operationId: " ∷ yaml_scalar op.id ∷ [])
    ∷ text_of ("      summary: " ∷ yaml_scalar op.summary ∷ [])
    ∷ text_of ("      description: " ∷ yaml_scalar op.when ∷ [])
    ∷ "      message:"
    ∷ text_of ("        $ref: '#/components/messages/" ∷ message_name op.direction ∷ "'" ∷ [])
    ∷ []

-- A channel of the AsyncAPI document.
unfoldable pub channel_lines : SseContract → String × List OperationDoc → List String
unfolding yaml_scalar find_scheme
channel_lines c (pattern, ops) =
    text_of ("  " ∷ yaml_scalar pattern ∷ ":" ∷ [])
    ∷ text_of (
        "    description: "
        ∷ yaml_scalar (text_of ("Channel " ∷ c.channel ∷ ", routing key " ∷ pattern ∷ "." ∷ []))
        ∷ [])
    ∷ "    parameters:"
    ∷ (parameter_lines (find_scheme pattern c.address_schemes) ++ lines_of operation_lines ops)

abbrev pub typed_lines : FieldDoc → List String
unfolding yaml_scalar async_api_type
typed_lines f =
    text_of ("          type: " ∷ async_api_type f.type ∷ [])
    ∷ text_of ("          description: " ∷ yaml_scalar f.description ∷ [])
    ∷ []

abbrev pub envelope_field_lines : FieldDoc → List String
envelope_field_lines f = text_of ("        " ∷ f.name ∷ ":" ∷ []) ∷ typed_lines f

abbrev pub frame_field_lines : FieldDoc → List String
frame_field_lines f =
    text_of ("        " ∷ f.name ∷ ":" ∷ [])
    ∷ (if f.name == "message"
        then "          $ref: '#/components/schemas/SseEnvelope'" ∷ []
        else typed_lines f)

abbrev pub info_lines : SseContract → List String
unfolding yaml_scalar
info_lines c =
    "asyncapi: 2.6.0"
    ∷ "info:"
    ∷ "  title: SSE cross-instance cluster"
    ∷ "  version: 1.0.0"
    ∷ text_of ("  description: " ∷ yaml_scalar c.channel_description ∷ [])
    ∷ "defaultContentType: application/json"
    ∷ []

abbrev pub message_lines : List String
message_lines =
    "components:" ∷ "  messages:" ∷ "    SseEnvelope:" ∷ "      name: SseEnvelope"
    ∷ "      title: Published message envelope" ∷ "      contentType: application/json"
    ∷ "      payload:" ∷ "        $ref: '#/components/schemas/SseEnvelope'" ∷ "    SseFrame:"
    ∷ "      name: SseFrame" ∷ "      title: SSE data frame delivered to a client"
    ∷ "      contentType: application/json" ∷ "      payload:"
    ∷ "        $ref: '#/components/schemas/SseFrame'" ∷ "  schemas:" ∷ "    SseEnvelope:"
    ∷ "      type: object" ∷ "      properties:" ∷ []

unfoldable pub async_api_lines : SseContract → List String
unfolding channel_lines by_pattern
async_api_lines c =
    info_lines c
    ++ ("channels:" ∷ lines_of (channel_lines c) (by_pattern c))
    ++ message_lines
    ++ lines_of envelope_field_lines c.envelope_fields
    ++ ("    SseFrame:" ∷ "      type: object" ∷ "      properties:" ∷ [])
    ++ lines_of frame_field_lines c.frame_fields

-- `L.join('\n') + '\n'`
unfoldable pub render_async_api : SseContract → String
unfolding async_api_lines join
render_async_api c = String.◌++◌ (join "\n" (async_api_lines c)) "\n"

-- ===== src/Sse/Docs/Catalog.antt =====
-- typescript/src/sse/docs/generate.ts: `renderMarkdown`, the catalog of events.
use messaging_poc.Common.{String, List, [], ◌∷◌, ◌++◌, map, text_of, join}
use messaging_poc.Sse.{scope_name}
use messaging_poc.Sse.Docs.{
  FieldDoc, OperationDoc, AddressSchemeDoc, SseContract, direction_name, lines_of,
}

abbrev pub field_row : FieldDoc → String
field_row f = text_of ("| `" ∷ f.name ∷ "` | `" ∷ f.type ∷ "` | " ∷ f.description ∷ " |" ∷ [])

unfoldable pub field_table : List FieldDoc → String
unfolding join
field_table fields =
    join "\n" ("| Field | Type | Description |\n| --- | --- | --- |" ∷ map field_row fields)

abbrev pub scheme_lines : AddressSchemeDoc → List String
scheme_lines a =
    text_of ("| `" ∷ scope_name a.scope ∷ "` | `" ∷ a.pattern ∷ "` | " ∷ a.description ∷ " |" ∷ [])
    ∷ []

abbrev pub operation_section : OperationDoc → List String
operation_section op =
    text_of ("### `" ∷ op.id ∷ "` (" ∷ direction_name op.direction ∷ ")" ∷ [])
    ∷ ""
    ∷ op.summary
    ∷ ""
    ∷ text_of ("- **Direction:** " ∷ direction_name op.direction ∷ [])
    ∷ text_of ("- **Routing key:** `" ∷ op.routing_key_pattern ∷ "`" ∷ [])
    ∷ text_of ("- **When:** " ∷ op.when ∷ [])
    ∷ ""
    ∷ []

unfoldable pub markdown_lines : SseContract → List String
unfolding field_table
markdown_lines c =
    ("# SSE event catalog"
      ∷ ""
      ∷ "> Generated from `typescript/src/sse/domain/contract.ts` via `npm run sse:docs`. Do not edit by hand."
      ∷ ""
      ∷ text_of ("## Channel `" ∷ c.channel ∷ "`" ∷ [])
      ∷ ""
      ∷ c.channel_description
      ∷ ""
      ∷ "## Address schemes"
      ∷ ""
      ∷ "| Scope | Routing key | Description |"
      ∷ "| --- | --- | --- |"
      ∷ [])
    ++ lines_of scheme_lines c.address_schemes
    ++ ("" ∷ "## Operations" ∷ "" ∷ [])
    ++ lines_of operation_section c.operations
    ++ ("## Message envelope"
        ∷ ""
        ∷ "The payload published to the channel and re-emitted as the `message` of an SSE frame."
        ∷ ""
        ∷ field_table c.envelope_fields
        ∷ ""
        ∷ "## SSE frame"
        ∷ ""
        ∷ "The `data:` frame delivered to a connected client."
        ∷ ""
        ∷ field_table c.frame_fields
        ∷ ""
        ∷ [])

unfoldable pub render_markdown : SseContract → String
unfolding markdown_lines join
render_markdown c = join "\n" (markdown_lines c)

-- ===== src/Sse/Docs/Contract.antt =====
-- typescript/src/sse/domain/contract.ts: the object `SSE_CONTRACT`.
use messaging_poc.Common.{List, [], ◌∷◌}
use messaging_poc.Sse.{user, org, sse_channel}
use messaging_poc.Sse.Docs.{
  OperationDirection, FieldDoc, OperationDoc, AddressSchemeDoc, SseContract,
}

abbrev pub sse_address_schemes : List AddressSchemeDoc
sse_address_schemes =
    record {
      scope = user;
      pattern = "user.{userId}";
      description =
          "User-direct routing key. A message published here reaches only the connection(s) for that single user.";
    }
    ∷ record {
      scope = org;
      pattern = "org.{orgId}";
      description =
          "Org-broadcast routing key. A message published here fans out to every connection in that org, across all server instances.";
    }
    ∷ []

abbrev pub sse_operations : List OperationDoc
sse_operations =
    record {
      id = "publish-to-user";
      summary = "Publish a message directly to one user.";
      direction = OperationDirection.publish;
      routing_key_pattern = "user.{userId}";
      when = "On `POST /publish` with `{ to: { type: \"user\", id } }`.";
    }
    ∷ record {
      id = "publish-to-org";
      summary = "Broadcast a message to every member of an org.";
      direction = OperationDirection.publish;
      routing_key_pattern = "org.{orgId}";
      when = "On `POST /publish` with `{ to: { type: \"org\", id } }`.";
    }
    ∷ record {
      id = "subscribe-user-stream";
      summary = "Receive user-direct messages on an SSE connection.";
      direction = OperationDirection.subscribe;
      routing_key_pattern = "user.{userId}";
      when =
          "When a client opens `GET /events?userId&orgId`; bound as a transient subscription for the connection lifetime.";
    }
    ∷ record {
      id = "subscribe-org-stream";
      summary = "Receive org-broadcast messages on an SSE connection.";
      direction = OperationDirection.subscribe;
      routing_key_pattern = "org.{orgId}";
      when =
          "When a client opens `GET /events?userId&orgId`; bound as a transient subscription for the connection lifetime.";
    }
    ∷ []

abbrev pub sse_envelope_fields : List FieldDoc
sse_envelope_fields =
    record {
      name = "from";
      type = "string";
      description = "Display name of the sender (defaults to `anon`).";
    }
    ∷ record { name = "text"; type = "string"; description = "Free-text body of the message." }
    ∷ record {
      name = "to";
      type = "object";
      description = "The publish target: `{ type: \"user\" | \"org\", id }`.";
    }
    ∷ record {
      name = "via";
      type = "string";
      description = "Id of the instance that accepted and published the message.";
    }
    ∷ record {
      name = "at";
      type = "string (ISO-8601)";
      description = "Timestamp set when the message was published.";
    }
    ∷ []

abbrev pub sse_frame_fields : List FieldDoc
sse_frame_fields =
    record {
      name = "scope";
      type = "\"user\" | \"org\"";
      description = "Which subscription matched: user-direct or org-broadcast.";
    }
    ∷ record {
      name = "instanceId";
      type = "string";
      description = "Id of the instance whose SSE stream delivered this frame.";
    }
    ∷ record {
      name = "message";
      type = "SseEnvelope";
      description = "The published message envelope.";
    }
    ∷ []

abbrev pub sse_contract : SseContract
sse_contract = record {
  channel = sse_channel;
  channel_description =
      "Single broker topic backing the cross-instance SSE cluster. Every browser connection opens two transient (exclusive + auto-delete) subscriptions on this topic — one user-direct, one org-broadcast — so the broker fans messages across server instances with no presence registry.";
  address_schemes = sse_address_schemes;
  operations = sse_operations;
  envelope_fields = sse_envelope_fields;
  frame_fields = sse_frame_fields;
}

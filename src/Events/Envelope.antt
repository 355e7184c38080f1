-- ===== src/Events/Envelope.antt =====
-- events/envelope.rs: the event envelope and its identifiers, which are texts.
use boardwalk.Common.{ℕ, Option, ◌∷◌, ◌++◌, Str, codes}
use boardwalk.Query.Json.{Json}
use boardwalk.Events.Crates.{Crates}

abbrev pub EventId : Type 0
EventId = Str

abbrev pub StreamId : Type 0
StreamId = Str

abbrev pub NodeId : Type 0
NodeId = Str

pub record TraceContext : Type 0 where
  pub traceparent : Str
  pub tracestate : Option Str

pub record EventEnvelope (crates : Crates) : Type 0 where
  pub envelope_version : ℕ
  pub event_id : EventId
  pub node_id : NodeId
  pub resource_id : Str
  pub resource_kind : Str
  pub resource_version : ℕ
  pub stream_id : StreamId
  pub stream : Str
  pub sequence : ℕ
  pub timestamp : crates.Timestamp
  pub payload_kind : Str
  pub payload_version : ℕ
  pub payload_schema : Option Str
  pub correlation_id : Option Str
  pub causation_id : Option Str
  pub trace_context : Option TraceContext
  pub payload : Json crates.numbers.Number

-- `topic`: node, kind, resource and stream.
unfoldable pub topic : {crates : Crates} → EventEnvelope crates → Str
topic e = e.node_id ++ (b'/' ∷ (e.resource_kind ++ (b'/' ∷ (e.resource_id ++ (b'/' ∷ e.stream)))))

-- `StreamId::for_resource`.
unfoldable pub for_resource : NodeId → Str → Str → StreamId
for_resource node resource_id stream =
    codes "bw://"
    ++ (node ++ (codes "/resources/" ++ (resource_id ++ (codes "/streams/" ++ stream))))

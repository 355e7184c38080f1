-- ===== src/Samples.antt =====
-- Concrete instances of the parameters, and test data, for the tests of the other modules.
use boardwalk.Common.{
  ℕ, ◌+◌, ◌-◌, ◌*◌, Bool, true, false, Option, none, some, List, [], ◌∷◌, ◌++◌, Str, codes, ◌==◌,
  ◌=s◌, leb, ltb, length, if◌then◌else◌, ok, ◌≡◌, =s_iff, sym, ◌∙◌,
}
use boardwalk.Query.Numbers.{Numbers}
use boardwalk.Query.Json.{Json, Fields, no_fields, field}
use boardwalk.Query.Ast.{FieldPath}
use boardwalk.Events.Crates.{Crates}
use boardwalk.Events.Envelope.{EventEnvelope}
use boardwalk.Events.Topic.{TopicPattern, literal, single_wild, multi_wild}
use boardwalk.Events.Policy.{SlowConsumerPolicy, disconnect, coalesce}
use boardwalk.Events.Coalesce.{Values, CoalesceState}
use boardwalk.Events.Bus.Mpsc.{Channels, TrySend, sent, full, closed}
use boardwalk.Events.Bus.Offer.{Outbound, Subscription}
use boardwalk.Events.Bus.{EventBus}

abbrev pub read_number : ℕ → Str → ℕ
read_number acc [] = acc
read_number acc (c ∷ s) = read_number (acc * 10 + (c - 48)) s

abbrev pub numbers : Numbers
numbers = record {
  F64 = ℕ;
  f64_eq = λ a b. a == b;
  f64_lt = ltb;
  f64_le = leb;
  f64_parse = λ s. some (read_number 0 s);
  Number = ℕ;
  as_f64 = λ n. some n;
}

-- A regular expression is a text that matches itself; a query string has the one pair `ql=…`.
abbrev pub crates : Crates
crates = record {
  numbers = numbers;
  Regex = Str;
  RegexError = Unit;
  regex_new = λ s. ok s;
  is_match = λ re s. re =s s;
  form_parse = λ s. (codes "ql", s) ∷ [];
  Timestamp = ℕ;
}

abbrev pub Value : Type 0
Value = Json ℕ

abbrev pub Envelope : Type 0
Envelope = EventEnvelope crates

-- Texts are compared; no other values are equal here.
abbrev pub same_text : Value → Value → Bool
same_text (Json.str a) (Json.str b) = a =s b
same_text _ _ = false

pub same_text_sym : (a b : Value) → same_text a b ≡ true → same_text b a ≡ true
same_text_sym (Json.str a) (Json.str b) h = (=s_iff b a).1 (sym ((=s_iff a b).0 h))
same_text_sym (Json.str a) Json.null h = cc
same_text_sym (Json.str a) (Json.bool b) h = cc
same_text_sym (Json.str a) (Json.num b) h = cc
same_text_sym (Json.str a) (Json.arr b) h = cc
same_text_sym (Json.str a) (Json.obj b) h = cc
same_text_sym Json.null b h = cc
same_text_sym (Json.bool a) b h = cc
same_text_sym (Json.num a) b h = cc
same_text_sym (Json.arr a) b h = cc
same_text_sym (Json.obj a) b h = cc

pub same_text_trans :
    (a b c : Value) → same_text a b ≡ true → same_text b c ≡ true → same_text a c ≡ true
same_text_trans (Json.str a) (Json.str b) (Json.str c) h k =
    (=s_iff a c).1 ((=s_iff a b).0 h ∙ (=s_iff b c).0 k)
same_text_trans (Json.str a) (Json.str b) Json.null h k = cc
same_text_trans (Json.str a) (Json.str b) (Json.bool c) h k = cc
same_text_trans (Json.str a) (Json.str b) (Json.num c) h k = cc
same_text_trans (Json.str a) (Json.str b) (Json.arr c) h k = cc
same_text_trans (Json.str a) (Json.str b) (Json.obj c) h k = cc
same_text_trans (Json.str a) Json.null c h k = cc
same_text_trans (Json.str a) (Json.bool b) c h k = cc
same_text_trans (Json.str a) (Json.num b) c h k = cc
same_text_trans (Json.str a) (Json.arr b) c h k = cc
same_text_trans (Json.str a) (Json.obj b) c h k = cc
same_text_trans Json.null b c h k = cc
same_text_trans (Json.bool a) b c h k = cc
same_text_trans (Json.num a) b c h k = cc
same_text_trans (Json.arr a) b c h k = cc
same_text_trans (Json.obj a) b c h k = cc

-- The view of an envelope that the tests use: its kind and its payload.
abbrev pub view : Envelope → Fields ℕ
view e =
    field (codes "resourceKind") (Json.str e.resource_kind)
      (field (codes "data") e.payload no_fields)

abbrev pub values : Values crates
values = record { value_eq = same_text; to_value = λ e. some (Json.obj (view e)) }

-- A bounded channel: its capacity, what is in it, and whether its receiver is there.
abbrev pub Chan : Type 0
Chan = ℕ × List Envelope × Bool

abbrev pub send : Chan → Envelope → Chan × TrySend
send (cap, q, open') e =
    if open'
    then (if ltb (length q) cap then ((cap, q ++ e ∷ [], open'), sent) else ((cap, q, open'), full))
    else ((cap, q, open'), closed)

abbrev pub channels : Channels crates
channels = record {
  values = values;
  Chan = Chan;
  channel = λ n. (n, [], true);
  try_send = send;
  serialized_len = λ e. some e.payload_version;
}

-- The state of one lamp, at a sequence number.
abbrev pub lamp : ℕ → Str → Envelope
lamp n state = record {
  envelope_version = 1;
  event_id = codes "s-1";
  node_id = codes "hub";
  resource_id = codes "7";
  resource_kind = codes "lamp";
  resource_version = n;
  stream_id = codes "s";
  stream = codes "state";
  sequence = n;
  timestamp = n;
  payload_kind = codes "state";
  payload_version = 1;
  payload_schema = none;
  correlation_id = none;
  causation_id = none;
  trace_context = none;
  payload = Json.obj (field (codes "state") (Json.str state) no_fields);
}

abbrev pub on : Envelope
on = lamp 1 (codes "on")

abbrev pub off : Envelope
off = lamp 2 (codes "off")

-- The path `data.state`.
abbrev pub state_path : FieldPath
state_path = record { segments = codes "data" ∷ codes "state" ∷ [] }

abbrev pub pattern : TopicPattern crates
pattern = record {
  segments = literal (codes "hub") ∷ single_wild ∷ multi_wild ∷ [];
  filter = none;
  raw = codes "hub/*/**";
}

abbrev pub queue : CoalesceState crates
queue = record {
  queue = off ∷ on ∷ [];
  capacity = 2;
  key_path = state_path;
  closed = false;
  receiver_dropped = false;
}

abbrev pub subscription :
    Outbound crates channels → Option ℕ → SlowConsumerPolicy → Subscription crates channels
subscription outbound limit policy = record {
  topic = pattern;
  outbound = outbound;
  remaining = limit;
  slow_consumer_policy = policy;
  in_flight = 0;
  last_delivered = none;
  slow_consumer_notify = true;
}

-- A subscription with a quota of one, one whose channel is full, and one that coalesces.
abbrev pub once : Subscription crates channels
once = subscription (Outbound.mpsc (2, [], true)) (some 1) disconnect

abbrev pub full_channel : Subscription crates channels
full_channel = subscription (Outbound.mpsc (1, off ∷ [], true)) none disconnect

abbrev pub coalescing : Subscription crates channels
coalescing = subscription (Outbound.queue queue) none (coalesce state_path)

abbrev pub bus : EventBus crates channels
bus = record {
  next_id = 4;
  subs = (1, once) ∷ (2, full_channel) ∷ (3, coalescing) ∷ [];
  registry = record {
    per_stream = (codes "s", 2) ∷ [];
    by_event_id = (codes "s-1", codes "s") ∷ [];
  };
  replay_cache = record { per_stream = []; capacity_per_stream = 2 };
  max_event_size = 10;
  detached = [];
}

-- ===== src/Events/Bus/Mpsc.antt =====
-- What the bus takes from tokio and serde_json: the bounded mpsc channel, and the size of a
-- serialized envelope. A channel is the state that its two ends share.
use boardwalk.Common.{ℕ, Option}
use boardwalk.Events.Crates.{Crates}
use boardwalk.Events.Envelope.{EventEnvelope}
use boardwalk.Events.Coalesce.{Values}

pub data TrySend : Type 0 where
  sent full closed : TrySend

pub record Channels (crates : Crates) : Type 1 where
  pub values : Values crates
  pub Chan : Type 0
  pub channel : ℕ → Chan
  pub try_send : Chan → EventEnvelope crates → Chan × TrySend
  -- `serde_json::to_vec(…).map(|v| v.len())`, with `none` for an error.
  pub serialized_len : EventEnvelope crates → Option ℕ

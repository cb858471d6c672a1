-- ===== src/Mqtt.antt =====
-- The MQTT sink (ingest/src/sinks/mqtt.py). The paho client is a parameter: its state, and `publish`,
-- which returns the next state and whether the return code says that the queue is full; the ValueError
-- for a topic with a wildcard, which no symbol of an exchange has, is left out. The logs are
-- left out, and so is what only calls paho: its setup, `start` and `stop`.
pub mod Drops
mod Tests
use nano_tick.Base.{
  ℕ, suc, Bool, true, false, List, [], ◌∷◌, ◌++◌, if◌then◌else◌, Result, ok, raise, ◌>>=◌,
}
use nano_tick.Base.Text.{Text, lower}

-- "ticks" (true) and "quotes" (false), as `run` of ingest/main.py passes them
abbrev pub root_name : Bool → Text
root_name true = 116 ∷ 105 ∷ 99 ∷ 107 ∷ 115 ∷ []
root_name false = 113 ∷ 117 ∷ 111 ∷ 116 ∷ 101 ∷ 115 ∷ []

pub record MqttSink (C : Type 0) : Type 0 where
  pub client : C
  pub dropped : ℕ
  pub connected : Bool

-- `message['venue']`, `message['symbol']` and `json.dumps(message)`
pub record Shape (M : Type 0) : Type 0 where
  pub venue : M → Result Text
  pub symbol : M → Result Text
  pub dumps : M → Text

-- what happens to a sink: a message to send, the callbacks of paho, and the work of its own thread
pub data Event (M C : Type 0) : Type 0 where
  sent : Bool → M → Event M C
  on_connect on_disconnect : Event M C
  network : (C → C) → Event M C

-- the end of `send`
unfoldable pub count_drop : {C : Type 0} → C × Bool → MqttSink C → MqttSink C
count_drop (client', full) s = record s {
  client = client';
  dropped = if full then suc s.dropped else s.dropped;
}

abbrev pub unless_raised : {A : Type 0} → Result A → A → A
unless_raised (ok s') s = s'
unless_raised (raise e) s = s

module _ {M C : Type 0} (shape : Shape M) (publish : Text → Text → C → C × Bool) where
  unfoldable pub topic_of : Bool → M → Result Text
  unfolding lower
  topic_of root m = do
    venue ← shape.venue m
    symbol ← shape.symbol m
    ok (root_name root ++ 47 ∷ venue ++ 47 ∷ lower symbol)

  unfoldable pub send : Bool → M → MqttSink C → Result (MqttSink C)
  unfolding topic_of count_drop
  send root m s = do
    topic ← topic_of root m
    ok (count_drop (publish topic (shape.dumps m) s.client) s)

  -- An exception of `send` is caught by `run` of ingest/main.py.
  unfoldable pub step : Event M C → MqttSink C → MqttSink C
  unfolding send
  step (Event.sent root m) s = unless_raised (send root m s) s
  step Event.on_connect s = record s { connected = true }
  step Event.on_disconnect s = record s { connected = false }
  step (Event.network f) s = record s { client = f s.client }

  unfoldable pub run_events : List (Event M C) → MqttSink C → MqttSink C
  unfolding step
  run_events [] s = s
  run_events (e ∷ es) s = run_events es (step e s)

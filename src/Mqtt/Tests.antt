-- ===== src/Mqtt/Tests.antt =====
-- Runs of the MQTT sink (ingest/src/sinks/mqtt.py), and its theorem there. A message is its venue and its
-- symbol, or neither; the client is the room in its queue with what it has accepted.
use nano_tick.Base.{
  ℕ, zero, suc, ◌≡◌, refl, Bool, true, false, Option, none, some, List, append-nil, [], ◌∷◌, ◌++◌,
  sym, ok, raise, Error,
}
use nano_tick.Base.Text.{Text, lower_char}
use nano_tick.Mqtt.{MqttSink, Shape, Event, run_events}
use nano_tick.Mqtt.Drops.{IsPaho, Counts, payloads, connected_after, run_events-Counts}

program : Unit {0}
unfolding run_events lower_char
program = tt

abbrev Client : Type 0
Client = ℕ × List (Text × Text)

abbrev publish : Text → Text → Client → Client × Bool
publish topic payload (zero, accepted) = ((zero, accepted), true)
publish topic payload (suc room, accepted) = ((room, accepted ++ (topic, payload) ∷ []), false)

-- A message is its symbol; without one, it has neither.
abbrev shape : Shape (Option Text)
shape = record {
  venue = λ m. ok (98 ∷ []);
  symbol = λ m. elim m [ none ↦ raise Error.key_error | some symbol ↦ ok symbol ];
  dumps = λ m. elim m [ none ↦ [] | some symbol ↦ symbol ];
}

abbrev events : List (Event (Option Text) Client)
events =
    Event.sent true (some (65 ∷ []))
    ∷ Event.on_connect
    ∷ Event.sent true none
    ∷ Event.sent false (some (66 ∷ []))
    ∷ Event.network (λ c. (suc c.0, c.1))
    ∷ Event.sent false (some (67 ∷ []))
    ∷ []

abbrev sink : MqttSink Client
sink = record { client = (1, []); dropped = 4; connected = false }

-- "ticks/b/a" and "quotes/b/c"
run_events_test : run_events shape publish events sink ≡ record {
  client = (
    0,
    (116 ∷ 105 ∷ 99 ∷ 107 ∷ 115 ∷ 47 ∷ 98 ∷ 47 ∷ 97 ∷ [], 65 ∷ [])
        ∷ (113 ∷ 117 ∷ 111 ∷ 116 ∷ 101 ∷ 115 ∷ 47 ∷ 98 ∷ 47 ∷ 99 ∷ [], 67 ∷ [])
        ∷ [],
  );
  dropped = 5;
  connected = true;
}
unfolding program
run_events_test = refl

publish-IsPaho : IsPaho shape publish (λ c. c.1)
publish-IsPaho topic payload (zero, accepted) = sym (append-nil accepted)
publish-IsPaho topic payload (suc room, accepted) = refl

run_events-Counts_example :
    Counts shape publish
      (λ c. c.1)
      (payloads shape publish (λ c. c.1) events)
      (connected_after shape publish (λ c. c.1) false events)
      sink
      (run_events shape publish events sink)
run_events-Counts_example =
    run_events-Counts shape publish (λ c. c.1) events sink publish-IsPaho
      (tt, (tt, (tt, (tt, ((λ c. refl), (tt, tt))))))

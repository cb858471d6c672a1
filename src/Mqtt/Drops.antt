-- ===== src/Mqtt/Drops.antt =====
-- What the MQTT sink hands to paho, and what it counts.
use nano_tick.Base.{
  ℕ, suc, ◌+◌, ◌≡◌, refl, sym, ap, ◌∙◌, Bool, true, false, List, append-nil, append_assoc, [], ◌∷◌,
  ◌++◌, if◌then◌else◌, Result, ok, raise, ◌>>=◌, arith, All,
}
use nano_tick.Base.Text.{Text}
use mathlib.Core.Path.{subst}
use nano_tick.Mqtt.{MqttSink, Shape, Event, topic_of, count_drop, unless_raised, run_events}

-- `ys` is `xs` without `n` of its elements, in the same order.
pub data Drops {A : Type 0} : ℕ → List A → List A → Type 0 where
  done : Drops 0 [] []
  keep : {n : ℕ} {xs ys : List A} → (x : A) → Drops n xs ys → Drops n (x ∷ xs) (x ∷ ys)
  drop_one : {n : ℕ} {xs ys : List A} → (x : A) → Drops n xs ys → Drops (suc n) (x ∷ xs) ys

-- what a message adds to those that paho has accepted
abbrev pub entry : Bool → Text → Text → List (Text × Text)
entry full topic payload = if full then [] else (topic, payload) ∷ []

module _ {M C : Type 0} (shape : Shape M) (publish : Text → Text → C → C × Bool)
    (accepted : C → List (Text × Text)) where
  -- Paho accepts a message exactly if its queue is not full.
  abbrev pub IsPaho : Type 0
  IsPaho =
      (topic payload : Text) (c : C)
      → accepted (publish topic payload c).0
        ≡ accepted c ++ entry (publish topic payload c).1 topic payload

  -- Its thread sends what was accepted and accepts nothing itself.
  abbrev pub IsOwn : Event M C → Type 0
  IsOwn (Event.network f) = (c : C) → accepted (f c) ≡ accepted c
  IsOwn _ = Unit {0}

  abbrev pub add_payload : M → Result Text → List (Text × Text) → List (Text × Text)
  add_payload m (ok topic) l = (topic, shape.dumps m) ∷ l
  add_payload m (raise x) l = l

  -- the topics and payloads of the messages that have a venue and a symbol
  abbrev pub payloads : List (Event M C) → List (Text × Text)
  payloads [] = []
  payloads (Event.sent root m ∷ es) = add_payload m (topic_of shape publish root m) (payloads es)
  payloads (_ ∷ es) = payloads es

  -- whether the last of the callbacks of the connection was `_on_connect`
  abbrev pub connected_after : Bool → List (Event M C) → Bool
  connected_after b [] = b
  connected_after b (Event.on_connect ∷ es) = connected_after true es
  connected_after b (Event.on_disconnect ∷ es) = connected_after false es
  connected_after b (_ ∷ es) = connected_after b es

  -- of the messages `xs`, some are accepted in their order, and the others are counted
  abbrev pub Counts : List (Text × Text) → Bool → MqttSink C → MqttSink C → Type 0
  Counts xs b s s' =
      (n : ℕ) × (kept : List (Text × Text)) × Drops n xs kept
      × (accepted s'.client ≡ accepted s.client ++ kept)
      × (s'.dropped ≡ s.dropped + n)
      × (s'.connected ≡ b)

  Counts-sent :
      (full : Bool) (topic payload : Text) (c' : C) (s s' : MqttSink C) (xs : List (Text × Text))
      (b : Bool)
      → accepted c' ≡ accepted s.client ++ entry full topic payload
      → Counts xs b (count_drop (c', full) s) s'
      → Counts ((topic, payload) ∷ xs) b s s'
  unfolding count_drop
  Counts-sent true topic payload c' s s' xs b h (n, kept, drops, same, total, conn) = (
    suc n,
    kept,
    Drops.drop_one (topic, payload) drops,
    same ∙ ap (λ l. l ++ kept) (h ∙ append-nil (accepted s.client)),
    total ∙ omega arith,
    conn,
  )
  Counts-sent false topic payload c' s s' xs b h (n, kept, drops, same, total, conn) = (
    n,
    (topic, payload) ∷ kept,
    Drops.keep (topic, payload) drops,
    same ∙ ap (λ l. l ++ kept) h ∙ append_assoc (accepted s.client) ((topic, payload) ∷ []) kept,
    total,
    conn,
  )

  -- a sink after `send`, by the topic of the message
  abbrev after : M → Result Text → MqttSink C → MqttSink C
  after m (ok topic) s = count_drop (publish topic (shape.dumps m) s.client) s
  after m (raise x) s = s

  unless_raised-after :
      (m : M) (r : Result Text) (s : MqttSink C)
      → unless_raised (do topic ← r; ok (count_drop (publish topic (shape.dumps m) s.client) s)) s
        ≡ after m r s
  unless_raised-after m (ok topic) s = refl
  unless_raised-after m (raise x) s = refl

  Counts-after :
      (m : M) (r : Result Text) (es : List (Event M C)) (s s' : MqttSink C)
      → IsPaho
      → Counts (payloads es) (connected_after (after m r s).connected es) (after m r s) s'
      → Counts (add_payload m r (payloads es)) (connected_after s.connected es) s s'
  unfolding count_drop
  Counts-after m (raise x) es s s' paho h = h
  Counts-after m (ok topic) es s s' paho h =
      Counts-sent (publish topic (shape.dumps m) s.client).1 topic (shape.dumps m)
        (publish topic (shape.dumps m) s.client).0 s s' (payloads es)
        (connected_after s.connected es) (paho topic (shape.dumps m) s.client) h

  -- Of the messages with a venue and a symbol, those that paho accepts are accepted in their order,
  -- each under its topic; each other one is counted as dropped; and no callback, no work of paho's
  -- thread and no message without venue or symbol changes either. The sink takes itself for connected
  -- as the last callback says.
  pub run_events-Counts :
      (es : List (Event M C)) (s : MqttSink C)
      → IsPaho
      → All IsOwn es
      → Counts (payloads es) (connected_after s.connected es) s (run_events shape publish es s)
  unfolding run_events
  run_events-Counts [] s paho own =
      (0, [], Drops.done, sym (append-nil (accepted s.client)), omega arith, refl)
  run_events-Counts (Event.sent root m ∷ es) s paho own =
      let r = topic_of shape publish root m in
      subst
        (λ s'.
          Counts (add_payload m r (payloads es)) (connected_after s.connected es) s
            (run_events shape publish es s'))
        (sym (unless_raised-after m r s))
        (Counts-after m r es s (run_events shape publish es (after m r s)) paho
          (run_events-Counts es (after m r s) paho own.1))
  run_events-Counts (Event.on_connect ∷ es) s paho own =
      run_events-Counts es (record s { connected = true }) paho own.1
  run_events-Counts (Event.on_disconnect ∷ es) s paho own =
      run_events-Counts es (record s { connected = false }) paho own.1
  run_events-Counts (Event.network f ∷ es) s paho own =
      let (n, kept, drops, same, total, conn) =
        run_events-Counts es (record s { client = f s.client }) paho own.1 in
      (n, kept, drops, same ∙ ap (λ l. l ++ kept) (own.0 s.client), total, conn)

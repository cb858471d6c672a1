-- ===== src/Stream/Backoff.antt =====
-- The backoff of ingest/src/streams/base.py: how long the stream sleeps.
use nano_tick.Base.{
  ℕ, zero, suc, ◌+◌, ◌*◌, ◌^◌, ◌≤◌, ◌≡◌, refl, sym, ◌∙◌, ap, Bool, true, false, Option, none, some,
  List, [], ◌∷◌, ◌++◌, min, All, All-append, arith, append-nil, append_assoc,
}
use mathlib.Core.Path.{ap₂}
use native.Mathlib.Nat.{pow-suc}
use nano_tick.Stream.{
  Stream, Event, retry, receive, connected_step, waiting_step, step_from, step, run, max_backoff,
}

abbrev pub IsBounded : ℕ → Type 0
IsBounded n = (1 ≤ n) × (n ≤ max_backoff)

-- the waits from the k-th on
abbrev pub waits : ℕ → ℕ → List ℕ
waits k zero = []
waits k (suc n) = min (2 ^ k) max_backoff ∷ waits (suc k) n

doubled : (k : ℕ) → min (min (2 ^ k) 60 * 2) 60 ≡ min (2 ^ suc k) 60
doubled k = omega (arith, pow-suc 2 k)

module _ {M : Type 0} where
  -- the backoff and all sleeps so far are from 1 to 60 seconds
  abbrev pub IsPaced : Stream M → Type 0
  IsPaced s = IsBounded s.backoff × All IsBounded s.sleeps

  retry-IsPaced : (s : Stream M) → IsPaced s → IsPaced (retry s)
  unfolding retry
  retry-IsPaced s h =
      ((omega arith, omega arith), All-append IsBounded s.sleeps (s.backoff ∷ []) h.1 (h.0, tt))

  receive-IsPaced : (m : Option M) (s : Stream M) → IsPaced s → IsPaced (receive m s)
  unfolding receive
  receive-IsPaced none s h = h
  receive-IsPaced (some m) s h = h

  connected-IsPaced : (e : Event M) (s : Stream M) → IsPaced s → IsPaced (connected_step e s)
  unfolding connected_step
  connected-IsPaced (Event.raw m) s h = receive-IsPaced m s h
  connected-IsPaced Event.broken s h = retry-IsPaced s h
  connected-IsPaced Event.closed s h = h
  connected-IsPaced Event.opened s h = h
  connected-IsPaced Event.refused s h = h

  waiting-IsPaced : (e : Event M) (s : Stream M) → IsPaced s → IsPaced (waiting_step e s)
  unfolding waiting_step
  waiting-IsPaced Event.opened s h = ((omega arith, omega arith), h.1)
  waiting-IsPaced Event.refused s h = retry-IsPaced s h
  waiting-IsPaced (Event.raw m) s h = h
  waiting-IsPaced Event.broken s h = h
  waiting-IsPaced Event.closed s h = h

  step_from-IsPaced :
      (c : Bool) (e : Event M) (s : Stream M) → IsPaced s → IsPaced (step_from c e s)
  unfolding step_from
  step_from-IsPaced true e s h = connected-IsPaced e s h
  step_from-IsPaced false e s h = waiting-IsPaced e s h

  -- From a stream whose backoff and past sleeps are from 1 to 60 seconds, whatever the websocket does,
  -- no sleep is for less than 1 second or more than 60, and neither is the backoff.
  pub run-IsPaced : (es : List (Event M)) (s : Stream M) → IsPaced s → IsPaced (run es s)
  unfolding run step
  run-IsPaced [] s h = h
  run-IsPaced (e ∷ es) s h = run-IsPaced es (step e s) (step_from-IsPaced s.connected e s h)

  -- so many refused connections
  abbrev pub refusals : ℕ → List (Event M)
  refusals zero = []
  refusals (suc n) = Event.refused ∷ refusals n

  refusals_from :
      (k n : ℕ) (s : Stream M)
      → s.connected ≡ false
      → s.backoff ≡ min (2 ^ k) max_backoff
      → run (refusals n) s
        ≡ record s { backoff = min (2 ^ (k + n)) max_backoff; sleeps = s.sleeps ++ waits k n }
  unfolding run step step_from waiting_step retry
  refusals_from k zero s c b =
      let here : k + 0 ≡ k = omega arith in
      rw here (ap₂ (λ n l. record s { backoff = n; sleeps = l }) b (sym (append-nil s.sleeps)))
  refusals_from k (suc n) s c b =
      let next : suc k + n ≡ k + suc n = omega arith in
      ap (λ on. run (refusals n) (step_from on Event.refused s)) c
      ∙ refusals_from (suc k) n (retry s) refl (ap (λ m. min (m * 2) 60) b ∙ doubled k)
      ∙ ap₂ (λ i l. record s { connected = false; backoff = min (2 ^ i) max_backoff; sleeps = l })
          next
          (append_assoc s.sleeps (s.backoff ∷ []) (waits (suc k) n)
            ∙ ap (λ m. s.sleeps ++ m ∷ waits (suc k) n) b)
      ∙ ap
          (λ on. record s {
            connected = on;
            backoff = min (2 ^ (k + suc n)) max_backoff;
            sleeps = s.sleeps ++ waits k (suc n);
          })
          (sym c)

  -- When a stream without a connection gets one that breaks, and the next n attempts are refused, it
  -- sleeps n + 1 times, the i-th time (from 0) for min(2^i, 60) seconds, whatever its backoff was.
  pub broken_refused :
      (n : ℕ) (s : Stream M)
      → s.connected ≡ false
      → run (Event.opened ∷ Event.broken ∷ refusals n) s
        ≡ record s { backoff = min (2 ^ suc n) max_backoff; sleeps = s.sleeps ++ waits 0 (suc n) }
  unfolding run step step_from waiting_step connected_step retry
  broken_refused n s c =
      let lost : Stream M = record s {
        connected = false;
        backoff = 2;
        sleeps = s.sleeps ++ 1 ∷ [];
      } in
      let index : 1 + n ≡ suc n = omega arith in
      ap (λ on. run (refusals n) (step Event.broken (step_from on Event.opened s))) c
      ∙ refusals_from 1 n lost refl refl
      ∙ ap₂ (λ i l. record s { connected = false; backoff = min (2 ^ i) max_backoff; sleeps = l })
          index (append_assoc s.sleeps (1 ∷ []) (waits 1 n))
      ∙ ap
          (λ on. record s {
            connected = on;
            backoff = min (2 ^ suc n) max_backoff;
            sleeps = s.sleeps ++ waits 0 (suc n);
          })
          (sym c)

-- ===== src/Client.antt =====
-- clients/binance.py: the pacing of the request weight (`WeightPacer`), the retries of `_get`, and
-- `fetch_trades` above them. The clock is in milliseconds. A server is a function from the number of
-- a request to its reply, over any type `B` of bodies.
pub mod Retry
mod Tests
use nano_tick.Base.{
  ℕ, zero, suc, ◌+◌, ◌-◌, ◌*◌, ◌/◌, ◌%◌, Bool, true, false, Option, none, some, List, [], min, max,
  ltb, leb, ◌==◌, ◌&&◌, ◌||◌, if◌then◌else◌, Result, ok, raise, Error,
}

-- a header whose value should be a number
pub data Header : Type 0 where
  absent empty invalid : Header
  number : ℕ → Header

pub record WeightPacer : Type 0 where
  pub limit : ℕ
  pub threshold : ℕ
  pub used : ℕ

-- `WeightPacer.__init__`, with the safety as a percentage
unfoldable pub new_pacer : ℕ → ℕ → WeightPacer
new_pacer limit safety = record {
  limit = limit;
  threshold = max 1 (limit * safety / 100);
  used = 0;
}

-- `WeightPacer.observe`
unfoldable pub observe : Header → WeightPacer → WeightPacer
observe Header.absent p = p
observe Header.empty p = p
observe Header.invalid p = p
observe (Header.number n) p = record p { used = n }

-- `WeightPacer.throttle`: the pacer and the clock after it
unfoldable pub throttle : ℕ → WeightPacer → WeightPacer × ℕ
throttle clock p =
    if ltb p.used p.threshold
    then (p, clock)
    else (record p { used = 0 }, clock + (60_000 - clock % 60_000 + 1_000))

-- What a request ends with. The `except` clauses catch an HTTP error, and a URLError or TimeoutError as
-- the network error; `resp.read()` and the reply's head may raise others.
pub data Reply (B : Type 0) : Type 0 where
  body : Header → B → Reply B
  http_error : (code : ℕ) (weight retry_after : Header) → Reply B
  network_error : Reply B
  uncaught : Error → Reply B

-- the clock, the count of requests so far and the pacer, if there is one
pub record World : Type 0 where
  pub clock : ℕ
  pub requests : ℕ
  pub pacer : Option WeightPacer

unfoldable pub pace : World → World
unfolding throttle
pace w = elim (w.pacer) [
  | none ↦ w
  | some p ↦ let (p', clock') = throttle w.clock p in record w { clock = clock'; pacer = some p' }
]

unfoldable pub observing : Header → World → World
unfolding observe
observing weight w = elim (w.pacer) [
  | none ↦ w
  | some p ↦ record w { pacer = some (observe weight p) }
]

-- the seconds to wait for: `min(int(headers.get("Retry-After", "1") or "1"), 120)`
unfoldable pub retry_wait : Header → Result ℕ
retry_wait Header.absent = ok 1
retry_wait Header.empty = ok 1
retry_wait Header.invalid = raise Error.value_error
retry_wait (Header.number n) = ok (min n 120)

-- what the body of the loop of `_get` does with a reply
pub data Attempt (B : Type 0) : Type 0 where
  done : Result (Option B) → Attempt B
  rate_limited : ℕ → Attempt B
  failed : Attempt B

module _ {B : Type 0} where
  unfoldable pub limited : Result ℕ → Attempt B
  limited (ok wait) = Attempt.rate_limited wait
  limited (raise e) = Attempt.done (raise e)

  unfoldable pub attempt : Reply B → Attempt B
  unfolding limited retry_wait
  attempt (Reply.body weight b) = Attempt.done (ok (some b))
  attempt (Reply.http_error code weight retry_after) =
      if code == 404
      then Attempt.done (ok none)
      else if (code == 429) || (code == 418)
      then limited (retry_wait retry_after)
      else Attempt.failed
  attempt Reply.network_error = Attempt.failed
  attempt (Reply.uncaught e) = Attempt.done (raise e)

  unfoldable pub observe_reply : Reply B → World → World
  unfolding observing
  observe_reply (Reply.body weight b) w = observing weight w
  observe_reply (Reply.http_error code weight retry_after) w =
      if code == 404 then w else observing weight w
  observe_reply Reply.network_error w = w
  observe_reply (Reply.uncaught e) w = w

  unfoldable pub slept : Attempt B → World → World
  slept (Attempt.done r) w = w
  slept (Attempt.rate_limited wait) w = record w { clock = w.clock + wait * 1_000 }
  slept Attempt.failed w = w

  -- one request: the pacing, the reply, and the wait of a rate limit
  unfoldable pub request : (ℕ → Reply B) → World → Attempt B × World
  unfolding pace attempt observe_reply slept
  request server w =
      let sent = pace w in
      let reply = server sent.requests in
      let counted = record sent { requests = sent.requests + 1 } in
      (attempt reply, slept (attempt reply) (observe_reply reply counted))

  -- The loop of `_get`, over the counts of network failures and of rate limits. `none` is a lack of
  -- fuel.
  unfoldable pub get_loop :
      ℕ
      → (ℕ → Reply B)
      → (retries network throttled : ℕ) → World
      → Option (Result (Option B) × World)
  unfolding request
  get_loop zero server retries network throttled w =
      if ltb network retries && ltb throttled 10 then none else some (raise Error.runtime_error, w)
  get_loop (suc fuel) server retries network throttled w =
      elim (ltb network retries && ltb throttled 10) [
        | true ↦
            let (a, w') = request server w in
            elim a [
              | Attempt.done r ↦ some (r, w')
              | Attempt.rate_limited wait ↦ get_loop fuel server retries network (throttled + 1) w'
              | Attempt.failed ↦ get_loop fuel server retries (network + 1) throttled w'
            ]
        | false ↦ some (raise Error.runtime_error, w)
      ]

  -- `_get`
  unfoldable pub get : (ℕ → Reply B) → ℕ → World → Option (Result (Option B) × World)
  unfolding get_loop
  get server retries w = get_loop (retries + 10) server retries 0 0 w

-- the end of `fetch_trades`, over `json.loads` and the truth of a body
unfoldable pub decode :
    {B T : Type 0} → (B → Bool) → (B → Result (List T)) → Option B → Result (List T)
decode is_empty loads none = ok []
decode is_empty loads (some b) = if is_empty b then ok [] else loads b

-- ===== src/Client/Retry.antt =====
-- How `_get` of clients/binance.py ends, and how its requests are paced.
use nano_tick.Base.{
  ℕ, zero, suc, ◌+◌, ◌/◌, ◌%◌, ◌≤◌, ◌<◌, ◌≡◌, refl, true, false, Option, some, ltb, inl, inr, ◌⊎◌,
  Bool-cases, Result, raise, Error, arith, tests, ◌&&◌, ◌==◌, ◌∙◌, ap, Option-cases,
}
use nano_tick.Client.{
  WeightPacer, World, Reply, Attempt, Header, throttle, pace, observing, observe_reply, slept,
  attempt, request, get_loop, get,
}

-- For a threshold of 1 at least: below it the pacer changes nothing and costs no time. From there
-- on it resets the used weight and sleeps to one second past the next minute. So a request goes out
-- below the threshold.
pub throttle_lem :
    (clock : ℕ) (p : WeightPacer)
    → 1 ≤ p.threshold
    → (((p.used < p.threshold) × (throttle clock p ≡ (p, clock)))
        ⊎ ((p.threshold ≤ p.used)
            × ((throttle clock p).1 / 60_000 ≡ clock / 60_000 + 1)
            × ((throttle clock p).1 % 60_000 ≡ 1_000)
            × ((throttle clock p).0 ≡ record p { used = 0 })))
      × ((throttle clock p).0.used < (throttle clock p).0.threshold)
unfolding throttle
throttle_lem clock p h = elim (Bool-cases (ltb p.used p.threshold)) [
  | inl e ↦ rw e (inl (omega (tests, e), refl), omega (tests, e))
  | inr e ↦ rw e (inr (omega (tests, e), omega arith, omega arith, refl), h)
]

pace-requests : (w : World) → (pace w).requests ≡ w.requests
unfolding pace
pace-requests w = elim (Option-cases w.pacer) [ inl e ↦ rw e refl | inr (p, e) ↦ rw e refl ]

observing-requests : (h : Header) (w : World) → (observing h w).requests ≡ w.requests
unfolding observing
observing-requests h w = elim (Option-cases w.pacer) [ inl e ↦ rw e refl | inr (p, e) ↦ rw e refl ]

-- the guard of the loop of `_get`
budget-cases :
    (n retries t : ℕ)
    → (((ltb n retries && ltb t 10) ≡ true) × (n < retries) × (t < 10))
      ⊎ (((ltb n retries && ltb t 10) ≡ false) × ((retries ≤ n) ⊎ (10 ≤ t)))
budget-cases n retries t = elim (Bool-cases (ltb n retries)) [
  | inl e ↦ elim (Bool-cases (ltb t 10)) [
    | inl d ↦ inl (rw (e, d) refl, omega (tests, e), omega (tests, d))
    | inr d ↦ inr (rw (e, d) refl, inr (omega (tests, d)))
  ]
  | inr e ↦ inr (rw e refl, inl (omega (tests, e)))
]

module _ {B : Type 0} (server : ℕ → Reply B) where
  observe_reply-requests : (r : Reply B) (w : World) → (observe_reply r w).requests ≡ w.requests
  unfolding observe_reply
  observe_reply-requests (Reply.body h b) w = observing-requests h w
  observe_reply-requests (Reply.http_error code h retry) w = elim (Bool-cases (code == 404)) [
    | inl e ↦ rw e refl
    | inr e ↦ rw e (observing-requests h w)
  ]
  observe_reply-requests Reply.network_error w = refl
  observe_reply-requests (Reply.uncaught e) w = refl

  slept-requests : (a : Attempt B) (w : World) → (slept a w).requests ≡ w.requests
  unfolding slept
  slept-requests (Attempt.done r) w = refl
  slept-requests (Attempt.rate_limited n) w = refl
  slept-requests Attempt.failed w = refl

  request-requests : (w : World) → (request server w).1.requests ≡ w.requests + 1
  unfolding request
  request-requests w =
      let sent = pace w in
      let reply = server sent.requests in
      let counted = record sent { requests = sent.requests + 1 } in
      slept-requests (attempt reply) (observe_reply reply counted)
      ∙ observe_reply-requests reply counted
      ∙ ap (λ n. n + 1) (pace-requests w)

  -- The worlds that the loop reaches after so many network failures and so many rate limits, with
  -- both budgets open before each.
  pub data Reached (retries : ℕ) (w : World) : (network limits : ℕ) → World → Type 0 where
    start : Reached retries w 0 0 w
    on_failure :
        {n t : ℕ} {v : World}
        → Reached retries w n t v
        → n < retries
        → t < 10
        → (request server v).0 ≡ Attempt.failed
        → Reached retries w (n + 1) t (request server v).1
    on_limit :
        {n t : ℕ} {v : World} (wait : ℕ)
        → Reached retries w n t v
        → n < retries
        → t < 10
        → (request server v).0 ≡ Attempt.rate_limited wait
        → Reached retries w n (t + 1) (request server v).1

  Reached-requests :
      {retries : ℕ} {w : World} {n t : ℕ} {v : World}
      → Reached retries w n t v
      → v.requests ≡ w.requests + n + t
  Reached-requests Reached.start = omega arith
  Reached-requests (Reached.on_failure {v = v} r hn ht e) =
      omega (arith, request-requests v, Reached-requests r)
  Reached-requests (Reached.on_limit {v = v} wait r hn ht e) =
      omega (arith, request-requests v, Reached-requests r)

  -- How a call ends: a reply decides it, or a budget is spent.
  abbrev pub Ends : (retries : ℕ) → World → Result (Option B) → World → Type 0
  Ends retries w r w' =
      (n : ℕ) × (t : ℕ) × (v : World) × Reached retries w n t v
      × (((n < retries)
            × (t < 10)
            × (request server v ≡ (Attempt.done r, w'))
            × (w'.requests ≡ w.requests + n + t + 1))
          ⊎ (((n ≡ retries) ⊎ (t ≡ 10))
              × (r ≡ raise Error.runtime_error)
              × (w' ≡ v)
              × (w'.requests ≡ w.requests + n + t)))

  exhausted :
      {retries n t : ℕ} {w v : World}
      → Reached retries w n t v
      → n ≤ retries
      → t ≤ 10
      → (retries ≤ n) ⊎ (10 ≤ t)
      → Ends retries w (raise Error.runtime_error) v
  exhausted {n = n} {t = t} {v = v} reached hn ht spent = (
    n,
    t,
    v,
    reached,
    inr (
      elim spent [ inl h ↦ inl (omega (arith, h)) | inr h ↦ inr (omega (arith, h)) ],
      refl,
      refl,
      Reached-requests reached,
    ),
  )

  -- the loop with so much fuel ends a call from any world that it can have reached
  abbrev LoopEnds : (fuel retries : ℕ) → World → Type 0
  LoopEnds fuel retries w =
      (n t : ℕ) (v : World)
      → Reached retries w n t v
      → n ≤ retries
      → t ≤ 10
      → retries + 10 ≤ fuel + n + t
      → (r : Result (Option B)) × (w' : World) × (get_loop fuel server retries n t v ≡ some (r, w'))
        × Ends retries w r w'

  get_loop-Ends : (fuel retries : ℕ) (w : World) → LoopEnds fuel retries w
  unfolding get_loop
  get_loop-Ends zero retries w n t v reached hn ht enough = elim (budget-cases n retries t) [
    | inl (e, hn', ht') ↦ absurd (omega (arith, hn', ht'))
    | inr (e, spent) ↦ (raise Error.runtime_error, v, rw e refl, exhausted reached hn ht spent)
  ]
  get_loop-Ends (suc fuel) retries w n t v reached hn ht enough = elim (budget-cases n retries t) [
    | inr (e, spent) ↦
        (raise Error.runtime_error, v, rw (get_loop, e) refl, exhausted reached hn ht spent)
    | inl (e, hn', ht') ↦
        rw (get_loop, e) (answer (get_loop-Ends fuel retries w) (request server v).0 refl hn' ht')
  ]
    where
      answer :
          LoopEnds fuel retries w
          → (a : Attempt B) → (request server v).0 ≡ a
          → n < retries
          → t < 10
          → (r : Result (Option B)) × (w' : World) × (◌≡◌ {A = Option (Result (Option B) × World)}
              (elim a [
                | Attempt.done r ↦ some (r, (request server v).1)
                | Attempt.rate_limited wait ↦
                    get_loop fuel server retries n (t + 1) (request server v).1
                | Attempt.failed ↦ get_loop fuel server retries (n + 1) t (request server v).1
              ])
              (some (r, w')))
            × Ends retries w r w'
      answer ih (Attempt.done r) a hn' ht' = (
        r,
        (request server v).1,
        refl,
        (
          n,
          t,
          v,
          reached,
          inl (
            hn',
            ht',
            ap (λ b. (b, (request server v).1)) a,
            omega (arith, request-requests v, Reached-requests reached),
          ),
        ),
      )
      answer ih (Attempt.rate_limited wait) a hn' ht' =
          ih n (t + 1) (request server v).1 (Reached.on_limit wait reached hn' ht' a) hn
            (omega (arith, ht')) (omega (arith, enough))
      answer ih Attempt.failed a hn' ht' =
          ih (n + 1) t (request server v).1 (Reached.on_failure reached hn' ht' a)
            (omega (arith, hn')) ht (omega (arith, enough))

  -- `_get` always returns or raises. Before that each request but the last met a network failure or
  -- a rate limit, and the two are counted on their own: fewer than `retries` of the one and fewer
  -- than 10 of the other before any request. Either the last reply decides the result, or one
  -- budget is spent and the result is a RuntimeError.
  pub get-Ends :
      (retries : ℕ) (w : World)
      → (r : Result (Option B)) × (w' : World) × (get server retries w ≡ some (r, w'))
        × Ends retries w r w'
  unfolding get
  get-Ends retries w =
      get_loop-Ends (retries + 10) retries w 0 0 w Reached.start (omega arith) (omega arith)
        (omega arith)

-- ===== src/Client/Tests.antt =====
-- Runs of `_get` (clients/binance.py), and its theorems at concrete servers.
use nano_tick.Base.{ℕ, zero, suc, ◌+◌, ◌≡◌, refl, Option, none, some, ok, raise, Error, Result}
use nano_tick.Client.{World, Reply, Header, new_pacer, throttle, request, get}
use nano_tick.Client.Retry.{Ends, get-Ends}

program : Unit {0}
unfolding get request throttle new_pacer
program = tt

-- a network failure, a rate limit that reports the weight, then the page
abbrev server : ℕ → Reply ℕ
server zero = Reply.network_error
server (suc zero) = Reply.http_error 429 (Header.number 6_000) (Header.number 500)
server (suc (suc n)) = Reply.body (Header.number 10) (40 + n)

abbrev before : World
before = record { clock = 30_000; requests = 0; pacer = some (new_pacer 6_000 75) }

get_test :
    get server 3 before
    ≡ some (
      ok (some 40),
      record {
        clock = 181_000;
        requests = 3;
        pacer = some (record { limit = 6_000; threshold = 4_500; used = 10 });
      },
    )
unfolding program
get_test = refl

-- no reply but rate limits: the tenth ends the call
limited_test :
    get {B = ℕ}
      (λ n. Reply.http_error 418 Header.absent Header.empty)
      3
      (record { clock = 0; requests = 0; pacer = none })
    ≡ some (raise Error.runtime_error, record { clock = 10_000; requests = 10; pacer = none })
unfolding program
limited_test = refl

get-Ends_example :
    (r : Result (Option ℕ)) × (w' : World) × (get server 3 before ≡ some (r, w'))
    × Ends server 3 before r w'
get-Ends_example = get-Ends server 3 before

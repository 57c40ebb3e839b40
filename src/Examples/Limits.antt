-- ===== src/Examples/Limits.antt =====
-- src/assistx/rate_limiter.py at concrete calls.
use auto_assist.Prelude.{ℕ, String, ◌≡◌, ◌≢◌, refl, ◌≤◌, ◌↔◌, false, List, [], ◌∷◌, arith, length}
use auto_assist.Examples.{differ}
use auto_assist.Dict
use auto_assist.Redis
use auto_assist.RateLimiter.{
  RateLimiter, Call, Fault, History, window_ms, key_of, check, serve, serve_one,
}
use auto_assist.RateLimiter.Window.{left}
use auto_assist.RateLimiter.Bound.{in_window, start, serve-in_window-le}
use auto_assist.RateLimiter.Verdicts.{check-refused_iff}

abbrev two_a_second : RateLimiter
two_a_second = record { key_prefix = "test"; max_requests = 2; window_seconds = 1 }

abbrev at : ℕ → String → Call
at t id = record { identifier = "ann"; now_ms = t; member_id = id; fault = Fault.no_fault }

abbrev burst : List Call
burst = at 5000 "a" ∷ at 5100 "b" ∷ at 5200 "c" ∷ []

abbrev full : History
full = serve two_a_second (at 5000 "a" ∷ at 5100 "b" ∷ []) start

-- the third call of the burst is refused, and the first two are kept
burst_accepted : length (serve two_a_second burst start).accepted ≡ 2
unfolding serve serve_one check key_of Redis.zset Redis.zcard Redis.zadd Redis.expire
    Redis.zremrangebyscore Redis.zrange Dict.get Dict.put
burst_accepted = refl

serve-in_window-le_example :
    in_window "ann" 4999 (window_ms two_a_second) (serve two_a_second burst start).accepted ≤ 2
serve-in_window-le_example =
    serve-in_window-le two_a_second burst
      (omega arith, refl, (omega arith, refl, (omega arith, refl, tt)))
      ((differ "a" "b" refl, (differ "a" "c" refl, tt)), ((differ "b" "c" refl, tt), (tt, tt)))
      "ann" 4999

check-refused_iff_example : ((check two_a_second (at 5200 "c") full.redis).1.allowed ≡ false) ↔ (
    (2 ≤ length (left two_a_second (at 5200 "c") full.redis))
    × (Fault.no_fault ≢ Fault.at_count)
    × (Fault.no_fault ≢ Fault.at_oldest))
check-refused_iff_example = check-refused_iff two_a_second (at 5200 "c") full.redis

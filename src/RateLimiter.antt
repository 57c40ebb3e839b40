-- ===== src/RateLimiter.antt =====
-- src/assistx/rate_limiter.py: a sliding window over a Redis sorted set.
pub mod Window
pub mod Bound
pub mod Verdicts
use auto_assist.Prelude.{
  ℕ, ◌+◌, ◌-◌, ◌*◌, ◌/◌, max, String, Bool, true, false, Option, none, some, List, [], ◌∷◌, leb,
  get_or, if◌then◌else◌,
}
use Prim.Native.String.{◌++◌}
use auto_assist.Prelude.Int.{pos, sub_ℕ}
use auto_assist.Redis
use auto_assist.Redis.{Redis, ZSet}

pub record RateLimiter : Type 0 where
  pub key_prefix : String
  pub max_requests : ℕ
  pub window_seconds : ℕ

abbrev pub window_ms : RateLimiter → ℕ
window_ms l = l.window_seconds * 1000

unfoldable pub key_of : RateLimiter → String → String
key_of l identifier = "ratelimit:" ++ l.key_prefix ++ ":" ++ identifier

-- One call of `check`: the clock's reading, the member id `f"{now_ms}:{uuid4().hex}"`, and the
-- Redis call, if any, that raises `RedisError`.
pub data Fault : Type 0 where
  no_fault at_count at_oldest at_add : Fault

pub record Call : Type 0 where
  pub identifier : String
  pub now_ms : ℕ
  pub member_id : String
  pub fault : Fault

-- (allowed, remaining_requests, retry_after_seconds)
pub record Verdict : Type 0 where
  pub allowed : Bool
  pub remaining : ℕ
  pub retry_after : ℕ

-- the `except` branch
abbrev pub open_verdict : RateLimiter → Verdict
open_verdict l = record { allowed = true; remaining = l.max_requests; retry_after = 0 }

-- `max(1, int((window_ms - (now_ms - oldest_ms) + 999) / 1000))`: a negative quotient is cut to at
-- most 0, so the difference may stop at 0
abbrev pub retry_after_of : RateLimiter → ℕ → ZSet → ℕ
retry_after_of l now_ms [] = 0
retry_after_of l now_ms ((member, oldest_ms) ∷ rest) =
    max 1 ((window_ms l + oldest_ms + 999 - now_ms) / 1000)

refuse : RateLimiter → Call → Redis → Redis × Verdict
refuse l c r = elim c.fault [
  | Fault.at_oldest ↦ (r, open_verdict l)
  | _ ↦ (
    r,
    record {
      allowed = false;
      remaining = 0;
      retry_after = retry_after_of l c.now_ms (Redis.zrange (key_of l c.identifier) 0 (some 0) r);
    },
  )
]

admit : RateLimiter → Call → ℕ → Redis → Redis × Verdict
admit l c card r = elim c.fault [
  | Fault.at_add ↦ (r, open_verdict l)
  | _ ↦
      let key = key_of l c.identifier in
      let (r', added) = Redis.zadd key c.member_id c.now_ms r in
      (
        (Redis.expire key (l.window_seconds * 2) r').0,
        record { allowed = true; remaining = l.max_requests - card - 1; retry_after = 0 },
      )
]

-- after the transaction that purges the window and counts what is left
decide : RateLimiter → Call → Redis → Redis × Verdict
unfolding refuse admit
decide l c r =
    let card = Redis.zcard (key_of l c.identifier) r in
    if leb l.max_requests card then refuse l c r else admit l c card r

unfoldable pub check : RateLimiter → Call → Redis → Redis × Verdict
unfolding decide
check l c r = elim c.fault [
  | Fault.at_count ↦ (r, open_verdict l)
  | _ ↦
      decide l c
        (Redis.zremrangebyscore (key_of l c.identifier) (pos 0) (sub_ℕ c.now_ms (window_ms l)) r).0
]

abbrev pub dispatch_limiter : RateLimiter
dispatch_limiter = record { key_prefix = "dispatch"; max_requests = 60; window_seconds = 60 }

abbrev pub event_limiter : RateLimiter
event_limiter = record { key_prefix = "paperclip_event"; max_requests = 120; window_seconds = 60 }

abbrev pub ask_limiter : RateLimiter
ask_limiter = record { key_prefix = "ask"; max_requests = 30; window_seconds = 60 }

abbrev pub intent_limiter : RateLimiter
intent_limiter = record { key_prefix = "intent"; max_requests = 60; window_seconds = 60 }

-- A history of calls, the accepted ones last first, each with its identifier and time.
pub record History : Type 0 where
  pub redis : Redis
  pub accepted : List (String × ℕ)

abbrev log_if : Bool → Call → List (String × ℕ) → List (String × ℕ)
log_if true c log = (c.identifier, c.now_ms) ∷ log
log_if false c log = log

unfoldable pub serve_one : RateLimiter → Call → History → History
serve_one l c h =
    let (r, v) = check l c h.redis in record { redis = r; accepted = log_if v.allowed c h.accepted }

unfoldable pub serve : RateLimiter → List Call → History → History
serve l [] h = h
serve l (c ∷ calls) h = serve l calls (serve_one l c h)

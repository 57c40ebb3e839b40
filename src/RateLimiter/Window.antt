-- ===== src/RateLimiter/Window.antt =====
-- rate_limiter.py: how many requests a limiter accepts in any window of its length, over whatever
-- sequence of calls, and what it answers when Redis fails.
use text.Mathlib.TextLemmas.{append_cancel_left}
use auto_assist.Prelude.{
  ℕ, ◌*◌, inl, inr, String, ◌≡◌, refl, not, arith, leb, ◌==◌, eq_iff, eq_refl, length, Bool-cases,
  if◌then◌else◌,
}
use auto_assist.Prelude.Int.{pos, sub_ℕ}
use auto_assist.Dict
use auto_assist.Redis
use auto_assist.Redis.{Redis, ZSet, zset}
use auto_assist.Redis.Sets.{purge, zset-zremrangebyscore, zset-zadd}
use auto_assist.RateLimiter.{RateLimiter, Call, Fault, window_ms, key_of, check}

-- two identifiers of one limiter have two keys
key_of-inj : (l : RateLimiter) (a b : String) → key_of l a ≡ key_of l b → a ≡ b
unfolding key_of
key_of-inj l a b h =
    append_cancel_left ":" _ _
      (append_cancel_left l.key_prefix _ _ (append_cancel_left "ratelimit:" _ _ h))

pub key_of-eq : (l : RateLimiter) (a b : String) → (key_of l a == key_of l b) ≡ (a == b)
key_of-eq l a b = elim (Bool-cases (a == b)) [
  | inl same ↦ rw ((eq_iff a b).0 same, eq_refl, eq_refl)
  | inr other ↦ elim (Bool-cases (key_of l a == key_of l b)) [
    | inl keys ↦
        absurd
          (ground (arith, eq_iff a b, key_of-inj l a b ((eq_iff (key_of l a) (key_of l b)).0 keys)))
    | inr apart ↦ rw (apart, other)
  ]
]

pub zcard-eq : (k : String) (r : Redis) → Redis.zcard k r ≡ length (zset k r)
unfolding Redis.zcard
zcard-eq k r = refl

zset-expire : (k j : String) (ttl : ℕ) (r : Redis) → zset j (Redis.expire k ttl r).0 ≡ zset j r
unfolding Redis.expire
zset-expire k j ttl r = refl

module _ (l : RateLimiter) where
  -- the members of a call's set after the purge that the call begins with
  abbrev pub left : Call → Redis → ZSet
  left c r = purge (pos 0) (sub_ℕ c.now_ms (window_ms l)) (zset (key_of l c.identifier) r)

  -- the state after that purge
  abbrev pub purged : Call → Redis → Redis
  purged c r =
      (Redis.zremrangebyscore (key_of l c.identifier) (pos 0) (sub_ℕ c.now_ms (window_ms l)) r).0

  pub zset-purged_self :
      (c : Call) (r : Redis) → zset (key_of l c.identifier) (purged c r) ≡ left c r
  zset-purged_self c r = rw (zset-zremrangebyscore, eq_refl)

  pub allowed-check :
      (c : Call) (r : Redis)
      → c.fault ≡ Fault.no_fault
      → (check l c r).1.allowed ≡ not (leb l.max_requests (length (left c r)))
  unfolding check
  allowed-check c r h =
      ground (arith, zcard-eq (key_of l c.identifier) (purged c r), zset-purged_self c r)

  pub zset-check :
      (c : Call) (r : Redis) (j : String)
      → c.fault ≡ Fault.no_fault
      → zset j (check l c r).0 ≡ (
          if key_of l c.identifier == j
          then (if (check l c r).1.allowed
              then Dict.put c.member_id c.now_ms (left c r)
              else left c r)
          else zset j r)
  unfolding check
  zset-check c r j h =
      let key = key_of l c.identifier in
      ground (
        arith,
        zset-purged_self c r,
        zset-zremrangebyscore key j (pos 0) (sub_ℕ c.now_ms (window_ms l)) r,
        zset-zadd key j c.member_id c.now_ms (purged c r),
        zset-expire key j (l.window_seconds * 2)
            (Redis.zadd key c.member_id c.now_ms (purged c r)).0,
      )

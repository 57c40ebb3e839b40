-- ===== src/RateLimiter/Verdicts.antt =====
-- rate_limiter.py: the answer of a call on each of its branches, failures of Redis included.
use auto_assist.Prelude.{
  ℕ, ◌+◌, ◌-◌, ◌*◌, ◌≤◌, ◌<◌, String, ◌≡◌, ◌≢◌, ◌↔◌, ◌⊎◌, false, some, List, ◌∷◌, arith, length,
}
use auto_assist.Redis
use auto_assist.Redis.{Redis}
use auto_assist.RateLimiter.{RateLimiter, Call, Fault, window_ms, key_of, check}
use auto_assist.RateLimiter.Window.{left, purged, zcard-eq, zset-purged_self}

module _ (l : RateLimiter) (c : Call) (r : Redis) where
  -- A request is refused exactly when the purged window is full and neither the count nor the read
  -- of the oldest entry failed: every other failure of Redis lets it through.
  pub check-refused_iff : ((check l c r).1.allowed ≡ false) ↔ (
      (l.max_requests ≤ length (left l c r))
      × (c.fault ≢ Fault.at_count)
      × (c.fault ≢ Fault.at_oldest))
  unfolding check
  check-refused_iff = (
    λ h. (
      ground (arith, zcard-eq (key_of l c.identifier) (purged l c r), zset-purged_self l c r),
      λ e. ground arith,
      λ e. ground arith,
    ),
    λ (full, counted, read).
        ground (arith, zcard-eq (key_of l c.identifier) (purged l c r), zset-purged_self l c r),
  )

  -- A refused caller that waits `retry_after` seconds finds the oldest entry gone from the window,
  -- and one second less would not be enough, unless the answer is the least one, 1.
  retry_after_exact :
      (e : String × ℕ) (rest : List (String × ℕ))
      → (check l c r).1.allowed ≡ false
      → Redis.zrange (key_of l c.identifier) 0 (some 0) (purged l c r) ≡ e ∷ rest
      → let retry_after = (check l c r).1.retry_after in
        (e.1 + window_ms l ≤ c.now_ms + retry_after * 1000)
        × ((retry_after ≡ 1) ⊎ (c.now_ms + (retry_after - 1) * 1000 < e.1 + window_ms l))
  unfolding check
  retry_after_exact e rest refused oldest =
      ground (arith, zcard-eq (key_of l c.identifier) (purged l c r), zset-purged_self l c r)

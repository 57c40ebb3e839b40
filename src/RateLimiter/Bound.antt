-- ===== src/RateLimiter/Bound.antt =====
-- rate_limiter.py: how many requests a limiter accepts in any window of its length, over whatever
-- sequence of calls.
use auto_assist.Prelude.{
  ℕ, ◌+◌, ◌≤◌, String, ◌≡◌, ◌≢◌, refl, ◌&&◌, none, List, [], ◌∷◌, arith, ltb, leb, ◌==◌, eq_iff,
  count, All,
}
use auto_assist.Prelude.Int.{pos, sub_ℕ}
use auto_assist.Dict
use auto_assist.Redis
use auto_assist.Redis.{Redis, zset}
use auto_assist.Redis.Sets.{above, above-le-length, above-purge, above-put, get-purge-none}
use auto_assist.RateLimiter.{
  RateLimiter, Call, Fault, History, window_ms, key_of, check, serve, serve_one,
}
use auto_assist.RateLimiter.Window.{left, key_of-eq, allowed-check, zset-check}

-- the accepted requests of an identifier after the time `s`
abbrev recent : String → ℕ → List (String × ℕ) → ℕ
recent id s log = count (λ (e : String × ℕ). e.0 == id && ltb s e.1) log

-- … and in the window that ends `width` later
abbrev pub in_window : String → ℕ → ℕ → List (String × ℕ) → ℕ
in_window id s width log =
    count (λ (e : String × ℕ). e.0 == id && ltb s e.1 && leb e.1 (s + width)) log

in_window-le-recent :
    (id : String) (s w : ℕ) (log : List (String × ℕ)) → in_window id s w log ≤ recent id s log
in_window-le-recent id s w [] = omega arith
in_window-le-recent id s w (e ∷ log) = ground (arith, in_window-le-recent id s w log)

-- The calls' times do not fall, the first is at `t` or later, and Redis fails in none of them.
abbrev pub Timely : ℕ → List Call → Type 0
Timely t [] = Unit
Timely t (c ∷ calls) = (t ≤ c.now_ms) × (c.fault ≡ Fault.no_fault) × Timely c.now_ms calls

-- No two calls have the same member id.
abbrev pub AreDistinct : List Call → Type 0
AreDistinct [] = Unit
AreDistinct (c ∷ calls) = All (λ (d : Call). c.member_id ≢ d.member_id) calls × AreDistinct calls

module _ (l : RateLimiter) where
  -- No set holds a member id of the calls to come.
  abbrev Apart : List Call → Redis → Type 0
  Apart calls r =
      (id : String) → All (λ (d : Call). Dict.get d.member_id (zset (key_of l id) r) ≡ none) calls

  -- what holds between two calls, the last of them at `t`
  record Inv (t : ℕ) (h : History) : Type 0 where
    covered :
        (id : String) (s : ℕ)
        → t ≤ s + window_ms l
        → recent id s h.accepted ≤ above s (zset (key_of l id) h.redis)
    bounded : (id : String) (s : ℕ) → in_window id s (window_ms l) h.accepted ≤ l.max_requests

  module _ (t : ℕ) (h : History) (c : Call) (later : t ≤ c.now_ms) where
    module _ (sound : c.fault ≡ Fault.no_fault) (inv : Inv t h) where
      step-covered :
          Dict.get c.member_id (zset (key_of l c.identifier) h.redis) ≡ none
          → (id : String) (s : ℕ) → c.now_ms ≤ s + window_ms l
          → recent id s (serve_one l c h).accepted
            ≤ above s (zset (key_of l id) (serve_one l c h).redis)
      unfolding serve_one
      step-covered new id s w = ground (
        arith,
        zset-check l c h.redis (key_of l id) sound,
        key_of-eq l c.identifier id,
        eq_iff c.identifier id,
        above-purge s c.now_ms (window_ms l) (zset (key_of l id) h.redis) w,
        above-put s c.now_ms c.member_id (left l c h.redis) (
            get-purge-none c.member_id (pos 0) (sub_ℕ c.now_ms (window_ms l))
              (zset (key_of l c.identifier) h.redis) new),
        inv.covered id s (omega arith),
      )

      step-bounded :
          (id : String) (s : ℕ)
          → in_window id s (window_ms l) (serve_one l c h).accepted ≤ l.max_requests
      unfolding serve_one
      step-bounded id s = ground (
        arith,
        allowed-check l c h.redis sound,
        eq_iff c.identifier id,
        inv.bounded id s,
        in_window-le-recent id s (window_ms l) h.accepted,
        λ (w : c.now_ms ≤ s + window_ms l). inv.covered id s (omega arith),
        above-purge s c.now_ms (window_ms l) (zset (key_of l c.identifier) h.redis),
        above-le-length s (left l c h.redis),
      )

      step-Inv :
          Dict.get c.member_id (zset (key_of l c.identifier) h.redis) ≡ none
          → Inv c.now_ms (serve_one l c h)
      step-Inv new = record { covered = step-covered new; bounded = step-bounded }

  -- A call adds no member id but its own.
  get-check-none :
      (c : Call) (r : Redis) (m id : String)
      → c.fault ≡ Fault.no_fault
      → c.member_id ≢ m
      → Dict.get m (zset (key_of l id) r) ≡ none
      → Dict.get m (zset (key_of l id) (check l c r).0) ≡ none
  get-check-none c r m id sound other absent = ground (
    arith,
    zset-check l c r (key_of l id) sound,
    key_of-eq l c.identifier id,
    eq_iff c.identifier id,
    eq_iff c.member_id m,
    Dict.get-put c.member_id m c.now_ms (left l c r),
    get-purge-none m (pos 0) (sub_ℕ c.now_ms (window_ms l)) (zset (key_of l c.identifier) r),
  )

  Apart-serve_one :
      (c : Call) (h : History) (calls : List Call)
      → c.fault ≡ Fault.no_fault
      → All (λ (d : Call). c.member_id ≢ d.member_id) calls
      → Apart calls h.redis
      → Apart calls (serve_one l c h).redis
  unfolding serve_one
  Apart-serve_one c h [] sound distinct apart id = tt
  Apart-serve_one c h (d ∷ calls) sound distinct apart id = (
    get-check-none c h.redis d.member_id id sound distinct.0 (apart id).0,
    Apart-serve_one c h calls sound distinct.1 (λ j. (apart j).1) id,
  )

  serve-bounded :
      (calls : List Call) (t : ℕ) (h : History)
      → Timely t calls
      → AreDistinct calls
      → Apart calls h.redis
      → Inv t h
      → (id : String) (s : ℕ)
      → in_window id s (window_ms l) (serve l calls h).accepted ≤ l.max_requests
  unfolding serve
  serve-bounded [] t h timely distinct apart inv = inv.bounded
  serve-bounded (c ∷ calls) t h timely distinct apart inv =
      serve-bounded calls c.now_ms (serve_one l c h) timely.2 distinct.1
        (Apart-serve_one c h calls timely.1 distinct.0 (λ id. (apart id).1))
        (step-Inv t h c timely.0 timely.1 inv (apart c.identifier).0)

abbrev pub start : History
start = record { redis = Redis.fresh; accepted = [] }

Apart-start : (l : RateLimiter) (calls : List Call) → Apart l calls start.redis
unfolding zset Dict.get
Apart-start l [] id = tt
Apart-start l (c ∷ calls) id = (refl, Apart-start l calls id)

-- From an empty store, over any sequence of calls whose times do not fall, whose member ids differ
-- and in which Redis never fails, no more than `max_requests` requests of an identifier are
-- accepted in any window `(s, s + window_ms]`, whatever the other identifiers do.
pub serve-in_window-le :
    (l : RateLimiter) (calls : List Call)
    → Timely 0 calls
    → AreDistinct calls
    → (id : String) (s : ℕ)
    → in_window id s (window_ms l) (serve l calls start).accepted ≤ l.max_requests
unfolding zset
serve-in_window-le l calls timely distinct id s =
    serve-bounded l calls 0 start timely distinct (Apart-start l calls)
      (record { covered = λ j t w. omega arith; bounded = λ j t. omega arith }) id s

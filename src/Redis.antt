-- ===== src/Redis.antt =====
-- src/assistx/compat.py: `InMemoryRedis`, the store behind the rate limiter and the answer indices
-- when the compatibility shims are in use. Scores are whole numbers. Publish and subscribe and
-- `scan_iter` are left out: nothing that is modelled here calls them.
pub mod Sets
use Prim.Native.Nat.{Ordering}
use Prim.Native.String.{compare}
use auto_assist.Prelude.{
  ℕ, zero, suc, ◌+◌, ◌-◌, String, Bool, true, false, not, ◌&&◌, ◌||◌, Option, none, some, List, [],
  ◌∷◌, ltb, eqb, keep, length, take, get_or, is_some, if◌then◌else◌,
}
use auto_assist.Prelude.Int.{ℤ, pos, leb_ℤ}
use auto_assist.Dict
use auto_assist.Dict.{Dict}

-- a sorted set: each member with its score
abbrev pub ZSet : Type 0
ZSet = Dict ℕ

pub record Redis : Type 0 where
  pub kv : Dict String
  pub zsets : Dict ZSet

abbrev pub fresh : Redis
fresh = record { kv = []; zsets = [] }

-- `self._zsets.get(key, {})`
unfoldable pub zset : String → Redis → ZSet
zset key r = get_or (Dict.get key r.zsets) []

abbrev pub within : ℤ → ℤ → String × ℕ → Bool
within lo hi (member, score) = leb_ℤ lo (pos score) && leb_ℤ (pos score) hi

unfoldable pub zremrangebyscore : String → ℤ → ℤ → Redis → Redis × ℕ
unfolding zset
zremrangebyscore key lo hi r =
    let z = zset key r in
    (
      record r { zsets = Dict.put key (keep (λ e. not (within lo hi e)) z) r.zsets },
      length (keep (within lo hi) z),
    )

unfoldable pub zcard : String → Redis → ℕ
unfolding zset
zcard key r = length (zset key r)

-- `zadd(key, {member: score})`
unfoldable pub zadd : String → String → ℕ → Redis → Redis × ℕ
unfolding zset
zadd key member score r =
    (record r { zsets = Dict.put key (Dict.put member score (zset key r)) r.zsets }, 1)

-- The shim keeps no expiry times.
unfoldable pub expire : String → ℕ → Redis → Redis × Bool
expire key ttl r = (r, true)

unfoldable pub zrem : String → String → Redis → Redis × ℕ
unfolding zset
zrem key member r =
    let removed = if is_some (Dict.get member (zset key r)) then 1 else 0 in
    if is_some (Dict.get key r.zsets)
    then (record r { zsets = Dict.put key (Dict.remove member (zset key r)) r.zsets }, removed)
    else (r, removed)

-- the order of `sorted(…, key=lambda kv: (kv[1], kv[0]))`
abbrev before : String × ℕ → String × ℕ → Bool
before (m, s) (n, t) = ltb s t || (eqb s t && elim (compare m n) [ Ordering.lt ↦ true | _ ↦ false ])

-- a stable sort, one item at a time: an item goes in front of the items that it is before
insert_sorted : String × ℕ → ZSet → ZSet
insert_sorted e [] = e ∷ []
insert_sorted e (d ∷ z) = if before d e then d ∷ insert_sorted e z else e ∷ d ∷ z

unfoldable pub sort_items : ZSet → ZSet
unfolding insert_sorted
sort_items [] = []
sort_items (e ∷ z) = insert_sorted e (sort_items z)

drop_items : ℕ → ZSet → ZSet
drop_items zero z = z
drop_items (suc n) [] = []
drop_items (suc n) (e ∷ z) = drop_items n z

-- `items[start : stop + 1 if stop != -1 else None]` with scores; `none` is the stop -1
unfoldable pub zrange : String → ℕ → Option ℕ → Redis → ZSet
unfolding zset sort_items drop_items
zrange key start stop r =
    let items = sort_items (zset key r) in
    elim stop [ none ↦ drop_items start items | some n ↦ drop_items start (take (n + 1) items) ]

-- ===== src/Redis/Sets.antt =====
-- What the sorted-set operations of `InMemoryRedis` do to each set, and counts of members by score.
use auto_assist.Prelude.{
  ℕ, ◌+◌, ◌≤◌, String, ◌≡◌, refl, not, none, [], ◌∷◌, arith, ltb, ◌==◌, keep, count, length,
  count-le-length, if◌then◌else◌,
}
use auto_assist.Prelude.Int.{ℤ, pos, sub_ℕ}
use auto_assist.Dict
use auto_assist.Redis.{Redis, ZSet, zset, within, zremrangebyscore, zadd}

-- how many members have a score above `s`
abbrev pub above : ℕ → ZSet → ℕ
above s z = count (λ (e : String × ℕ). ltb s e.1) z

-- what `zremrangebyscore` leaves of a set
abbrev pub purge : ℤ → ℤ → ZSet → ZSet
purge lo hi z = keep (λ (e : String × ℕ). not (within lo hi e)) z

pub above-le-length : (s : ℕ) (z : ZSet) → above s z ≤ length z
above-le-length s z = count-le-length (λ (e : String × ℕ). ltb s e.1) z

-- A purge up to `now - window` drops no member above `s` when `now ≤ s + window`.
pub above-purge :
    (s now window : ℕ) (z : ZSet)
    → now ≤ s + window
    → above s (purge (pos 0) (sub_ℕ now window) z) ≡ above s z
above-purge s now window [] h = refl
above-purge s now window ((m, t) ∷ z) h = ground (arith, above-purge s now window z h)

pub above-put :
    (s t : ℕ) (m : String) (z : ZSet)
    → Dict.get m z ≡ none
    → above s (Dict.put m t z) ≡ above s z + (if ltb s t then 1 else 0)
unfolding Dict.get Dict.put
above-put s t m [] h = ground arith
above-put s t m ((n, u) ∷ z) h = ground (arith, above-put s t m z)

pub get-purge-none :
    (m : String) (lo hi : ℤ) (z : ZSet) → Dict.get m z ≡ none → Dict.get m (purge lo hi z) ≡ none
unfolding Dict.get
get-purge-none m lo hi [] h = refl
get-purge-none m lo hi ((n, u) ∷ z) h = ground (arith, get-purge-none m lo hi z)

pub zset-write :
    (k j : String) (z : ZSet) (r : Redis)
    → zset j (record r { zsets = Dict.put k z r.zsets }) ≡ (if k == j then z else zset j r)
unfolding zset
zset-write k j z r = ground (arith, Dict.get-put k j z r.zsets)

pub zset-zremrangebyscore :
    (k j : String) (lo hi : ℤ) (r : Redis)
    → zset j (zremrangebyscore k lo hi r).0 ≡ (if k == j then purge lo hi (zset k r) else zset j r)
unfolding zremrangebyscore
zset-zremrangebyscore k j lo hi r = zset-write k j (purge lo hi (zset k r)) r

pub zset-zadd :
    (k j m : String) (t : ℕ) (r : Redis)
    → zset j (zadd k m t r).0 ≡ (if k == j then Dict.put m t (zset k r) else zset j r)
unfolding zadd
zset-zadd k j m t r = zset-write k j (Dict.put m t (zset k r)) r

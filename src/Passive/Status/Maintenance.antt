-- ===== src/Passive/Status/Maintenance.antt =====
-- passive_status.py: what a status shows right after a maintenance sweep.
use auto_assist.Prelude.{
  ℕ, min, ◌≤◌, String, ◌≡◌, refl, ◌∙◌, ap, Bool, true, false, Option, none, List, [], ◌∷◌, arith,
  ltb, map, keep, count, any, length, All, All-take,
}
use auto_assist.Passive.Graph.{Task, Graph}
use auto_assist.Passive.Control.{Board}
use auto_assist.Passive.Claims.Base.{Env, Logger, granted, expiry}
use auto_assist.Passive.Claims.Expire.{
  has_expired, ClaimItem, ExpiredRow, claim_from_task, is_listed, list_passive_claims,
  passive_claim_summary, expire_passive_claims,
}
use auto_assist.Passive.Claims.Expiry.{All-by_expiry, All-keep-hit, IsRestorable}
use auto_assist.Passive.Claims.Sweep.{expire_passive_claims-clears}
use auto_assist.Passive.Status.{Reads, build_passive_status, passive_maintenance}

module _ (now_ms : ℕ) where
  abbrev IsLive : Task → Type 0
  IsLive t = ltb (expiry t) now_ms ≡ false

  unexpired :
      (tasks : List Task)
      → any (has_expired now_ms) tasks ≡ false
      → (agent_id : Option String)
      → All (λ (t : Task). is_listed agent_id true now_ms t ≡ true → IsLive t) tasks
  unexpired [] h agent_id = tt
  unexpired (t ∷ tasks) h agent_id =
      ((λ e. ground (arith, h, e)), unexpired tasks (ground (arith, h)) agent_id)

  none_counted :
      (tasks : List Task)
      → All IsLive tasks
      → count (λ (c : ClaimItem). c.expired) (map (λ (t : Task). claim_from_task t now_ms) tasks)
        ≡ 0
  unfolding claim_from_task
  none_counted [] h = refl
  none_counted (t ∷ tasks) (h, hs) = ground (arith, h, none_counted tasks hs)

  -- a list of claims shows no expired one when the graph has none
  none_listed :
      (read_ok : Bool) (agent_id : Option String) (limit : ℕ) (g : Graph)
      → any (has_expired now_ms) g.tasks ≡ false
      → (passive_claim_summary (list_passive_claims read_ok agent_id true limit now_ms g)).expired
        ≡ 0
  unfolding passive_claim_summary list_passive_claims
  none_listed false agent_id limit g h = refl
  none_listed true agent_id limit g h = none_counted _ (
      All-take IsLive limit _ (
        All-by_expiry IsLive (keep (is_listed agent_id true now_ms) g.tasks) (
          All-keep-hit IsLive (is_listed agent_id true now_ms) g.tasks
            (unexpired g.tasks h agent_id))))

-- A maintenance whose transaction does not raise and whose limit covers the expired claims, on
-- tasks that can be restored, leaves no expired claim, and the status that it returns, read at the
-- same time, counts none.
pub passive_maintenance-clears :
    (env : Env) (loggers : ℕ → Logger) (reads : Reads) (limit : ℕ) (b : Board)
    → reads.now_ms ≡ env.now_ms
    → env.tx_ok ≡ true
    → All (IsRestorable env.now_ms) b.graph.tasks
    → count (has_expired env.now_ms) b.graph.tasks ≤ limit
    → let (b', m) = passive_maintenance env loggers reads limit b in
      (found : List ExpiredRow) × (m.expired ≡ granted found)
      × (length found ≡ count (has_expired env.now_ms) b.graph.tasks)
      × (any (has_expired env.now_ms) b'.graph.tasks ≡ false)
      × (m.status.claim_summary.expired ≡ 0)
unfolding passive_maintenance build_passive_status
passive_maintenance-clears env loggers reads limit b now ok good few =
    let (found, told, counted, cleared) =
      expire_passive_claims-clears env loggers limit b.graph ok good few in
    let after = (expire_passive_claims env loggers limit b.graph).0 in
    (
      found,
      told,
      counted,
      cleared,
      none_listed reads.now_ms reads.claims_ok none (min limit 100) after
          (ap (λ (n : ℕ). any (has_expired n) after.tasks) now ∙ cleared),
    )

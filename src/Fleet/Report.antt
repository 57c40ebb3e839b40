-- ===== src/Fleet/Report.antt =====
-- fleet.py: the lock `_lock`, which is not reentrant, around `discover`, `status`, `list_models`,
-- `nodes_for` and `metrics_snapshot`.
use Prim.Native.Nat.{Ordering}
use Prim.Native.String.{compare}
use auto_assist.Prelude.{
  ℕ, ◌-◌, String, ◌≡◌, ap, ◌∙◌, Bool, true, false, not, ◌&&◌, Option, List, [], map, get_or,
  if_true, if_false, if◌then◌else◌,
}
use auto_assist.Prelude.Sorting.{sort_by}
use auto_assist.Dict.{Dict, get}
use auto_assist.Fleet.Names.{node_of}
use auto_assist.Fleet.State.{Config, Perf, Candidate, Fleet, at}
use auto_assist.Fleet.Discover.{is_fresh, discover}

-- the module's state and whether some thread holds the lock
pub record Module (W : Type 0) : Type 0 where
  pub fleet : Fleet W
  pub locked : Bool

-- A call returns, or waits for the lock for ever.
pub data Answer (A : Type 0) : Type 0 where
  returned : A → Answer A
  blocked : Answer A

-- the router's answer to a call, and the time after it
pub record Router : Type 0 where
  pub reply : Option (List String)
  pub later : ℕ

-- an entry of the snapshot: what is known of the model, and its use
pub record Entry (W : Type 0) : Type 0 where
  pub perf : Perf W
  pub inflight : ℕ
  pub node_inflight : ℕ
  pub idle : ℕ

-- the order of texts
abbrev precedes : String → String → Bool
precedes a b = elim (compare a b) [ Ordering.gt ↦ false | _ ↦ true ]

-- sorted(v["models"].keys())
model_names : String × Dict String → String × List String
unfolding sort_by
model_names (node, models) = (node, sort_by precedes (map (λ (e : String × String). e.0) models))

module _ {W : Type 0} (c : Config) where
  unfoldable pub discover_locked : ℕ → Bool → Router → Module W → Module W × Answer (Unit {0})
  unfolding discover
  discover_locked now force r m =
      if not force && is_fresh c now m.fleet
      then (m, returned tt)
      else if m.locked
      then (m, blocked)
      else (record m { fleet = discover c now force r.reply r.later m.fleet }, returned tt)

  abbrev and_then : {A B : Type 0} → (Module W → A → B) → Module W × Answer A → Module W × Answer B
  and_then f (m, returned a) = (m, returned (f m a))
  and_then f (m, blocked) = (m, blocked)

  unfoldable pub list_models : ℕ → Router → Module W → Module W × Answer (List String)
  unfolding discover_locked sort_by
  list_models now r m =
      and_then
        (λ m' a. sort_by precedes (map (λ (e : String × List Candidate). e.0) m'.fleet.model_map))
        (discover_locked now false r m)

  unfoldable pub nodes_for :
      ℕ → Router → String → Module W → Module W × Answer (List (String × String))
  unfolding discover_locked
  nodes_for now r model m =
      and_then
        (λ m' a.
          map (λ (x : Candidate). (x.node, x.full)) (get_or (get model m'.fleet.model_map) []))
        (discover_locked now false r m)

  unfoldable pub status : ℕ → Router → Module W → Module W × Answer (Dict (List String))
  unfolding discover_locked model_names
  status now r m = and_then (λ m' a. map model_names m'.fleet.nodes) (discover_locked now false r m)

  entry_of : ℕ → Fleet W → String × Perf W → String × Entry W
  entry_of now f (id, p) = (
    id,
    record {
      perf = p;
      inflight = at id f.inflight;
      node_inflight = at (node_of id) f.node_inflight;
      idle = now - get_or (get id f.lru) p.first_seen;
    },
  )

  abbrev unlock : {A : Type 0} → Module W × Answer A → Module W × Answer A
  unlock (m, returned a) = (record m { locked = false }, returned a)
  unlock (m, blocked) = (m, blocked)

  -- `with _lock:` around the entries and the call of `status`
  unfoldable pub metrics_snapshot :
      ℕ → Router → Module W → Module W × Answer (Dict (Entry W) × Dict (List String))
  unfolding status entry_of
  metrics_snapshot now r m =
      if m.locked
      then (m, blocked)
      else unlock (
          and_then (λ m' nodes. (map (entry_of now m.fleet) m.fleet.perf, nodes))
            (status now r (record m { locked = true })))

  -- the call of `status` under the lock, on a registry that is out of date
  status_blocked :
      (now : ℕ) (r : Router) (m : Module W)
      → is_fresh c now m.fleet ≡ false
      → status now r (record m { locked = true }) ≡ (record m { locked = true }, blocked)
  unfolding status discover_locked model_names
  status_blocked now r m stale =
      ap (and_then (λ (m' : Module W) (a : Unit {0}). map model_names m'.fleet.nodes))
        (if_false _ _ _ stale)

  snapshot_stuck :
      (now : ℕ) (r : Router) (m : Module W)
      → m.locked ≡ true
      → (metrics_snapshot now r m).1 ≡ blocked
  unfolding metrics_snapshot
  snapshot_stuck now r m held =
      ap (λ (x : Module W × Answer (Dict (Entry W) × Dict (List String))). x.1) (if_true _ _ _ held)

  discover_stuck :
      (now : ℕ) (r : Router) (m : Module W)
      → m.locked ≡ true
      → (discover_locked now true r m).1 ≡ blocked
  unfolding discover_locked
  discover_stuck now r m held = ap (λ (x : Module W × Answer (Unit {0})). x.1) (if_true _ _ _ held)

  snapshot_blocked :
      (now : ℕ) (r : Router) (m : Module W)
      → m.locked ≡ false
      → is_fresh c now m.fleet ≡ false
      → metrics_snapshot now r m ≡ (record m { locked = true }, blocked)
  unfolding metrics_snapshot
  snapshot_blocked now r m free stale =
      if_false _ _ _ free
      ∙ ap
          (λ (x : Module W × Answer (Dict (List String))). unlock (
            and_then
              (λ (m' : Module W) (nodes : Dict (List String)).
                (map (entry_of now m.fleet) m.fleet.perf, nodes))
              x))
          (status_blocked now r m stale)

  -- A snapshot on a registry that is out of date, or empty, never returns: its call of `status`
  -- waits for the lock that the snapshot itself holds. The lock stays held, so that from then on
  -- every snapshot and every forced discovery, such as the refresh thread's, waits for ever too.
  pub metrics_snapshot-blocked :
      (now : ℕ) (r : Router) (m : Module W)
      → m.locked ≡ false
      → is_fresh c now m.fleet ≡ false
      → (later : ℕ) (r' : Router)
      → let (m', told) = metrics_snapshot now r m in
        (told ≡ blocked)
        × ((metrics_snapshot later r' m').1 ≡ blocked)
        × ((discover_locked later true r' m').1 ≡ blocked)
  metrics_snapshot-blocked now r m free stale later r' =
      let stuck = snapshot_blocked now r m free stale in
      let held =
        ap (λ (x : Module W × Answer (Dict (Entry W) × Dict (List String))). x.0.locked) stuck in
      (
        ap (λ (x : Module W × Answer (Dict (Entry W) × Dict (List String))). x.1) stuck,
        snapshot_stuck later r' (metrics_snapshot now r m).0 held,
        discover_stuck later r' (metrics_snapshot now r m).0 held,
      )

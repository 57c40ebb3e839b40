-- ===== src/Passive/Status/Advice.antt =====
-- passive_status.py: when the status sends idle agents to work.
use auto_assist.Prelude.{
  ℕ, min, String, ◌≡◌, ◌≢◌, refl, sym, ◌∙◌, ◌⊎◌, inl, inr, Bool, true, false, ◌&&◌, Option, none,
  List, [], ◌∷◌, arith, eq_iff, ltb, All, if◌then◌else◌,
}
use auto_assist.Dict.{Dict}
use auto_assist.Passive.Candidate.{Suggestion}
use auto_assist.Passive.Candidate.Safety.{IsOffered, suggest_idle_work-IsOffered}
use auto_assist.Passive.Control.{Board, ControlState, get_passive_control_state}
use auto_assist.Passive.Control.Policy.{get_passive_control_state_policy}
use auto_assist.Passive.Claims.Expire.{ClaimSummary}
use auto_assist.Passive.Status.{
  Advised, heartbeat_idle_agents, keep_agents_paused, drain_current_work, expire_stale_claims,
  monitor_claim_renewals, idle_wait, when, has_work, counted, passive_system_recommendations, Reads,
  build_passive_status,
}

-- the advice is one of the list's
abbrev pub Tells : Advised → List Advised → Type 0
Tells a [] = ⊥
Tells a (b ∷ advice) = (a ≡ b) ⊎ Tells a advice

pub Tells-when :
    (a b : Advised) (c : Bool) (rest : List Advised)
    → Tells a (when c b rest)
    → ((c ≡ true) × (a ≡ b)) ⊎ Tells a rest
Tells-when a b true rest (inl e) = inl (refl, e)
Tells-when a b true rest (inr t) = inr t
Tells-when a b false rest t = inr t

pub Tells-skip :
    (a b : Advised) (c : Bool) (rest : List Advised)
    → a ≢ b
    → Tells a (when c b rest)
    → Tells a rest
Tells-skip a b c rest other t = elim (Tells-when a b c rest t) [
  | inl (h, e) ↦ absurd (other e)
  | inr u ↦ u
]

all_three : (a b c : Bool) → (a && b && c) ≡ true → (a ≡ true) × (b ≡ true) × (c ≡ true)
all_three a b c h = (ground (arith, h), ground (arith, h), ground (arith, h))

-- the list of the recommendations, by the tests of each
module _ (p d e w m i : Bool) where
  abbrev after_work : List Advised
  after_work = when m monitor_claim_renewals (when i idle_wait [])

  abbrev after_drain : List Advised
  after_drain = when e expire_stale_claims (when w heartbeat_idle_agents after_work)

  later_silent : Tells heartbeat_idle_agents after_work → ⊥
  later_silent t =
      let u =
        Tells-skip heartbeat_idle_agents monitor_claim_renewals m (when i idle_wait [])
          (λ x. ground arith) t in
      Tells-skip heartbeat_idle_agents idle_wait i [] (λ x. ground arith) u

  told_work :
      Tells heartbeat_idle_agents
        (when p keep_agents_paused (when d drain_current_work after_drain))
      → w ≡ true
  told_work t =
      let a =
        Tells-skip heartbeat_idle_agents keep_agents_paused p
          (when d drain_current_work after_drain) (λ x. ground arith) t in
      let b =
        Tells-skip heartbeat_idle_agents drain_current_work d after_drain (λ x. ground arith) a in
      let c =
        Tells-skip heartbeat_idle_agents expire_stale_claims e
          (when w heartbeat_idle_agents after_work) (λ x. ground arith) b in
      elim (Tells-when heartbeat_idle_agents heartbeat_idle_agents w after_work c) [
        | inl (h, same) ↦ h
        | inr later ↦ absurd (later_silent later)
      ]

-- what makes the recommendation to wake idle agents
advised_work :
    (beats : Dict ℕ) (claims : ClaimSummary) (work : List Suggestion) (control : ControlState)
    → Tells heartbeat_idle_agents (passive_system_recommendations beats claims work control)
    → (control.new_claims_allowed ≡ true)
      × (ltb 0 (counted "idle" beats) ≡ true)
      × (has_work work ≡ true)
unfolding passive_system_recommendations
advised_work beats claims work control t =
    all_three control.new_claims_allowed (ltb 0 (counted "idle" beats)) (has_work work)
      (told_work _ _ _ _ _ _ t)

All-if :
    (c : Bool) (capabilities : List String) (found : List Suggestion)
    → All (IsOffered capabilities) found
    → All (IsOffered capabilities) (if c then found else [])
All-if true capabilities found h = h
All-if false capabilities found h = tt

-- The status recommends to wake idle agents only when the control is enabled, some listed agent is
-- idle and there is work, and each piece of that work is safe to offer to an agent without
-- capabilities.
build_passive_status-advises :
    (reads : Reads) (agent_id : Option String) (include_idle_work : Bool) (limit : ℕ) (b : Board)
    → let s = build_passive_status reads agent_id include_idle_work limit b in
      Tells heartbeat_idle_agents s.recommendations
      → (s.control.mode ≡ "enabled")
        × (ltb 0 (counted "idle" s.heartbeat_summary) ≡ true)
        × (has_work s.idle_work ≡ true)
        × All (IsOffered []) s.idle_work
unfolding build_passive_status
build_passive_status-advises reads agent_id include_idle_work limit b told =
    let (allowed, idle, work) = advised_work _ _ _ _ told in
    let control = get_passive_control_state reads.control_ok b in
    let policy = get_passive_control_state_policy reads.control_ok b in
    (
      (eq_iff control.mode "enabled").0 (sym policy.0.1 ∙ allowed),
      idle,
      work,
      All-if _ [] _
          (suggest_idle_work-IsOffered b.graph.tasks [] (min limit 10) none reads.now_ms).0,
    )

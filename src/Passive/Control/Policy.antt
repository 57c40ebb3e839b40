-- ===== src/Passive/Control/Policy.antt =====
-- passive_control.py: what the control allows, and that a change is read back.
use auto_assist.Prelude.{
  ℕ, String, Bool, true, false, not, ◌||◌, Option, none, some, ◌==◌, or_default, ◌≡◌, refl, ap, ◌∙◌,
  ◌⊎◌, inl, inr, strip, lower, arith, eq_iff, Bool-cases,
}
use auto_assist.Passive.Candidate.{is_in}
use auto_assist.Passive.Claims.Base.{Logger, logged_id, record_passive_event_id}
use auto_assist.Passive.Control.{
  valid_modes, PassiveControlIn, ControlNode, ControlState, normalize_mode, build_control_state,
  Board, state_of, get_passive_control_state, Refusal, Outcome, refused, changed, invalid_mode,
  neo4j_error, empty_dict, set_passive_control_state, recommended_agent_status_for_mode,
}

-- what a state says of its mode
abbrev pub IsCoherent : ControlState → Type 0
IsCoherent s =
    (s.passive_allowed ≡ s.new_claims_allowed)
    × (s.new_claims_allowed ≡ (s.mode == "enabled"))
    × (s.renewals_allowed ≡ (s.new_claims_allowed || s.mode == "draining"))
    × ((s.recommended_agent_status == "idle") ≡ s.new_claims_allowed)

recommended-idle : (m : String) → (recommended_agent_status_for_mode m == "idle") ≡ (m == "enabled")
unfolding recommended_agent_status_for_mode
recommended-idle m = elim (Bool-cases (m == "enabled")) [
  | inl a ↦ rw a
  | inr n ↦ elim (Bool-cases (m == "paused")) [
    | inl a ↦ rw (n, a)
    | inr p ↦ elim (Bool-cases (m == "draining")) [
      | inl a ↦ rw (n, p, a)
      | inr d ↦ elim (Bool-cases (m == "maintenance")) [
        | inl a ↦ rw (n, p, d, a)
        | inr u ↦ rw (n, p, d, u)
      ]
    ]
  ]
]

build_control_state-IsCoherent :
    (mode reason updated_by : Option String) (ts : Option ℕ) (metadata : Option String)
    → IsCoherent (build_control_state mode reason updated_by ts metadata)
unfolding build_control_state
build_control_state-IsCoherent mode reason updated_by ts metadata =
    (refl, refl, refl, recommended-idle (normalize_mode mode))

state_of-IsCoherent : (c : Option ControlNode) → IsCoherent (state_of c)
state_of-IsCoherent none = build_control_state-IsCoherent _ _ _ _ _
state_of-IsCoherent (some c) =
    build_control_state-IsCoherent c.mode c.reason c.updated_by c.updated_at_ts c.metadata

state_of-ok : (c : Option ControlNode) → (state_of c).ok ≡ true
unfolding build_control_state
state_of-ok none = refl
state_of-ok (some c) = refl

moved : (l m : String) → l ≡ m → normalize_mode (some l) ≡ l → normalize_mode (some m) ≡ m
moved l m e h = cc

normalize_valid : (m : String) → is_in valid_modes m ≡ true → normalize_mode (some m) ≡ m
unfolding normalize_mode lower strip
normalize_valid m h = elim (Bool-cases ("enabled" == m)) [
  | inl a ↦ moved "enabled" m ((eq_iff "enabled" m).0 a) refl
  | inr n ↦ elim (Bool-cases ("paused" == m)) [
    | inl a ↦ moved "paused" m ((eq_iff "paused" m).0 a) refl
    | inr p ↦ elim (Bool-cases ("draining" == m)) [
      | inl a ↦ moved "draining" m ((eq_iff "draining" m).0 a) refl
      | inr d ↦ moved "maintenance" m ((eq_iff "maintenance" m).0 (ground arith)) refl
    ]
  ]
]

-- Whatever the node holds, the control state allows new claims exactly when it is enabled, allows
-- renewals exactly when it is enabled or draining, and recommends the status idle exactly when it
-- allows new claims. A state that was not read allows nothing.
pub get_passive_control_state_policy :
    (read_ok : Bool) (b : Board)
    → let s = get_passive_control_state read_ok b in
      IsCoherent s × ((s.ok || not s.renewals_allowed) ≡ true)
unfolding get_passive_control_state build_control_state normalize_mode
    recommended_agent_status_for_mode lower strip
get_passive_control_state_policy true b =
    (state_of-IsCoherent b.control, ground (arith, state_of-ok b.control))
get_passive_control_state_policy false b = ((refl, refl, refl, refl), refl)

abbrev new_state : ℕ → PassiveControlIn → ControlState
new_state now_ms body =
    build_control_state (some (normalize_mode (some body.mode))) body.reason body.updated_by
      (some now_ms) (some (or_default (some body.metadata) empty_dict))

module _ (now_ms datetime : ℕ) (write_ok : Bool) (logger : Logger) (body : PassiveControlIn)
    (b : Board) where
  set-invalid :
      is_in valid_modes (normalize_mode (some body.mode)) ≡ false
      → set_passive_control_state now_ms datetime write_ok logger body b ≡ (b, refused invalid_mode)
  unfolding set_passive_control_state
  set-invalid h = rw h

  set-failed :
      is_in valid_modes (normalize_mode (some body.mode)) ≡ true
      → write_ok ≡ false
      → set_passive_control_state now_ms datetime write_ok logger body b ≡ (b, refused neo4j_error)
  unfolding set_passive_control_state
  set-failed h k = rw (h, k)

  set-changed :
      is_in valid_modes (normalize_mode (some body.mode)) ≡ true
      → write_ok ≡ true
      → let (b', out) = set_passive_control_state now_ms datetime write_ok logger body b in
        (id : Option String) × (out ≡ changed (new_state now_ms body) id)
        × (get_passive_control_state true b' ≡ new_state now_ms body)
  unfolding set_passive_control_state get_passive_control_state
  set-changed h k = (logged_id logger, rw (h, k, record_passive_event_id), rw (h, k))

-- A change that the graph accepts has one of the four modes and is what the next successful read
-- returns; one that is refused leaves the graph as it was.
set_passive_control_state-get :
    (now_ms datetime : ℕ) (write_ok : Bool) (logger : Logger) (body : PassiveControlIn) (b : Board)
    → let (b', out) = set_passive_control_state now_ms datetime write_ok logger body b in
      ((state : ControlState) × (id : Option String) × (out ≡ changed state id)
        × (get_passive_control_state true b' ≡ state)
        × (is_in valid_modes state.mode ≡ true))
      ⊎ ((r : Refusal) × (out ≡ refused r) × (b' ≡ b))
unfolding build_control_state normalize_mode
set_passive_control_state-get now_ms datetime write_ok logger body b =
    let mode = normalize_mode (some body.mode) in
    elim (Bool-cases (is_in valid_modes mode)) [
      | inr bad ↦
          let e = set-invalid now_ms datetime write_ok logger body b bad in
          inr
            (invalid_mode, ap (λ (p : Board × Outcome). p.1) e, ap (λ (p : Board × Outcome). p.0) e)
      | inl good ↦ elim (Bool-cases write_ok) [
        | inr failed ↦
            let e = set-failed now_ms datetime write_ok logger body b good failed in
            inr (
              neo4j_error,
              ap (λ (p : Board × Outcome). p.1) e,
              ap (λ (p : Board × Outcome). p.0) e,
            )
        | inl ok ↦
            let (id, told, read) = set-changed now_ms datetime write_ok logger body b good ok in
            inl (
              new_state now_ms body,
              id,
              told,
              read,
              ap (is_in valid_modes) (normalize_valid mode good) ∙ good,
            )
      ]
    ]

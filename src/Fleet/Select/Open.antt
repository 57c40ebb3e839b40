-- ===== src/Fleet/Select/Open.antt =====
-- fleet.py: which candidates the tests of `select_any` and `_score` let pass.
use auto_assist.Prelude.{
  ℕ, String, ◌≡◌, refl, sym, ap, ◌∙◌, inl, inr, ◌⊎◌, Bool, true, false, not, ◌&&◌, ◌||◌, List, [],
  ◌∷◌, ◌==◌, any, ◌<◌, leb, get_or, IsIn, Bool-cases, arith, eq_iff,
}
use auto_assist.Fleet.Params.{params_of, is_toolish}
use auto_assist.Fleet.State.{Float, Config, Candidate, Fleet, at}
use auto_assist.Fleet.Value.{Need, Values}
use auto_assist.Fleet.Health.{node_cap}
use auto_assist.Fleet.Score.{is_capable}
use auto_assist.Fleet.Select.{is_preferred, is_eligible}

any-IsIn :
    (node : String) (ps : List String) → any (λ (x : String). x == node) ps ≡ true → IsIn node ps
any-IsIn node [] h = cc
any-IsIn node (p ∷ ps) h = elim (Bool-cases (p == node)) [
  | inl hit ↦ inl (sym ((eq_iff p node).0 hit))
  | inr miss ↦ inr (any-IsIn node ps (ground (arith, h, miss)))
]

IsIn-any :
    (node : String) (ps : List String) → IsIn node ps → any (λ (x : String). x == node) ps ≡ true
IsIn-any node [] h = absurd h
IsIn-any node (p ∷ ps) (inl same) = ground (arith, (eq_iff p node).1 (sym same))
IsIn-any node (p ∷ ps) (inr later) = ground (arith, IsIn-any node ps later)

-- the node is preferred, or none is
abbrev pub IsPreferred : List String → String → Type 0
IsPreferred prefer node = (prefer ≡ []) ⊎ IsIn node prefer

abbrev pub IsWithin : ℕ → ℕ → Bool → Type 0
IsWithin cap n selftask = selftask ≡ true → n < cap

capped-IsWithin :
    (cap n : ℕ) (selftask : Bool) → not (selftask && leb cap n) ≡ true → IsWithin cap n selftask
capped-IsWithin cap n true h e = ground (arith, h)
capped-IsWithin cap n false h e = cc

IsWithin-capped :
    (cap n : ℕ) (selftask : Bool) → IsWithin cap n selftask → not (selftask && leb cap n) ≡ true
IsWithin-capped cap n true h = ground (arith, h refl)
IsWithin-capped cap n false h = refl

both_true : (a b : Bool) → (a && b) ≡ true → (a ≡ true) × (b ≡ true)
both_true true b h = (refl, h)
both_true false b h = cc

tools_needed : (toolish able : Bool) → (not toolish || able) ≡ true → toolish ≡ true → able ≡ true
tools_needed true able h e = h
tools_needed false able h e = cc

tools_fit : (toolish able : Bool) → (toolish ≡ true → able ≡ true) → (not toolish || able) ≡ true
tools_fit true able h = h refl
tools_fit false able h = refl

not-true : (b : Bool) → not b ≡ true → b ≡ false
not-true true h = sym h
not-true false h = refl

module _ {W : Type 0} (fl : Float W) where
  is_preferred-IsPreferred :
      (prefer : List String) (node : String)
      → is_preferred fl prefer node ≡ true
      → IsPreferred prefer node
  is_preferred-IsPreferred [] node h = inl refl
  is_preferred-IsPreferred (p ∷ ps) node h = inr (any-IsIn node (p ∷ ps) h)

  IsPreferred-is_preferred :
      (prefer : List String) (node : String)
      → IsPreferred prefer node
      → is_preferred fl prefer node ≡ true
  IsPreferred-is_preferred [] node h = refl
  IsPreferred-is_preferred (p ∷ ps) node (inl none) = cc
  IsPreferred-is_preferred (p ∷ ps) node (inr h) = IsIn-any node (p ∷ ps) h

  -- what a selection is asked
  pub record Query : Type 0 where
    pub config : Config
    pub values : Values W
    pub now : ℕ
    pub need : Need W
    pub prefer : List String
    pub selftask : Bool

  -- the tests as the code makes them
  abbrev pub IsTested : Query → Fleet W → Candidate → Type 0
  IsTested q f x =
      (is_eligible fl q.config q.prefer q.selftask f x ≡ true)
      × (is_capable fl q.need x.model ≡ true)

  -- A candidate stands on a preferred node, has room for a self-task, is large enough, and can use
  -- tools where the task needs it.
  abbrev pub IsOpen : Query → Fleet W → Candidate → Type 0
  IsOpen q f x =
      IsPreferred q.prefer x.node
      × IsWithin (node_cap fl q.config x.node f) (at x.node f.selftask_inflight) q.selftask
      × (fl.lt (params_of fl x.model) (get_or q.need.min_params (fl.ratio 0 1)) ≡ false)
      × (q.need.toolish ≡ true → is_toolish x.model ≡ true)

  pub IsTested-IsOpen : (q : Query) (f : Fleet W) (x : Candidate) → IsTested q f x → IsOpen q f x
  IsTested-IsOpen q f x (eligible, capable) =
      let (preferred, within) = both_true (is_preferred fl q.prefer x.node) _ eligible in
      let (large, able) =
        both_true (not (fl.lt (params_of fl x.model) (get_or q.need.min_params (fl.ratio 0 1)))) _
          capable in
      (
        is_preferred-IsPreferred q.prefer x.node preferred,
        capped-IsWithin (node_cap fl q.config x.node f) (at x.node f.selftask_inflight) q.selftask
            within,
        not-true _ large,
        tools_needed q.need.toolish (is_toolish x.model) able,
      )

  pub IsOpen-IsTested : (q : Query) (f : Fleet W) (x : Candidate) → IsOpen q f x → IsTested q f x
  IsOpen-IsTested q f x (preferred, within, large, able) = (
    ap
          (λ (b : Bool).
            b
            && not
                (q.selftask && leb (node_cap fl q.config x.node f) (at x.node f.selftask_inflight)))
          (IsPreferred-is_preferred q.prefer x.node preferred)
        ∙ IsWithin-capped (node_cap fl q.config x.node f) (at x.node f.selftask_inflight) q.selftask
            within,
    ap (λ (b : Bool). not b && (not q.need.toolish || is_toolish x.model)) large
        ∙ tools_fit q.need.toolish (is_toolish x.model) able,
  )

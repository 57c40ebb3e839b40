-- ===== src/Passive/Claims/Coherent.antt =====
-- passive_claims.py: what each operation's update keeps of a task.
use auto_assist.Prelude.{
  ℕ, ◌≡◌, refl, sym, subst, ap, ◌∙◌, ◌⊎◌, inl, inr, String, Bool, true, false, ◌==◌, Option, none,
  some, List, [], ◌∷◌, arith, All, get_or, is_some, upper, lower, eq_iff, ◌||◌, if◌then◌else◌,
  Bool-cases, if_true, if_false,
}
use auto_assist.Passive.Graph.{Task, update_tasks}
use auto_assist.Passive.Claims.Base.{Env, claimed_passive, is_claimed}
use auto_assist.Passive.Claims.Create.{PassiveClaimIn, is_claimable, set_claim, undo_claim}
use auto_assist.Passive.Claims.Renew.{PassiveClaimRenewIn, set_renewal}
use auto_assist.Passive.Claims.Release.{
  PassiveClaimReleaseIn, is_result, set_release, next_status_for_release,
}
use auto_assist.Passive.Claims.Expire.{set_expired}

-- A task would go back to a status that is not CLAIMED_PASSIVE, and a claimed one names its claim,
-- its agent and its end.
pub record IsSound (t : Task) : Type 0 where
  pub resting : (upper (get_or t.previous_status "READY") == claimed_passive) ≡ false
  pub owned : is_claimed t ≡ true → is_some t.claim.agent_id ≡ true
  pub named : is_claimed t ≡ true → is_some t.claim.claim_id ≡ true
  pub ending : is_claimed t ≡ true → is_some t.claim.expires_at_ts ≡ true

pub All-update :
    (P : Task → Type 0) (p : Task → Bool) (f : Task → Task)
    → ((t : Task) → p t ≡ true → P t → P (f t))
    → (tasks : List Task) → All P tasks
    → All P (update_tasks p f tasks)
All-update P p f keeps [] h = tt
All-update P p f keeps (t ∷ tasks) (h, hs) = elim (Bool-cases (p t)) [
  | inl hit ↦ (subst P (sym (if_true _ _ _ hit)) (keeps t hit h), All-update P p f keeps tasks hs)
  | inr miss ↦ (subst P (sym (if_false _ _ _ miss)) h, All-update P p f keeps tasks hs)
]

ready_rests : (upper "READY" == claimed_passive) ≡ false
unfolding upper
ready_rests = refl

review_rests : (upper "REVIEW" == claimed_passive) ≡ false
unfolding upper
review_rests = refl

claimable_rests :
    (s : String) → (s == "READY" || s == "REVIEW") ≡ true → (s == claimed_passive) ≡ false
claimable_rests s h = elim (Bool-cases (s == "READY")) [
  | inl e ↦ ap (λ (x : String). x == claimed_passive) ((eq_iff s "READY").0 e)
  | inr n ↦ ap (λ (x : String). x == claimed_passive) ((eq_iff s "REVIEW").0 (ground (arith, h, n)))
]

review_default :
    (o : Option String)
    → (upper (get_or o "READY") == claimed_passive) ≡ false
    → (upper (get_or o "REVIEW") == claimed_passive) ≡ false
review_default none h = review_rests
review_default (some s) h = h

next_status_cases :
    (result : String)
    → (next_status_for_release result ≡ "REVIEW") ⊎ (next_status_for_release result ≡ "READY")
unfolding next_status_for_release
next_status_cases result =
    let normalized = lower (if result == "" then "released" else result) in
    elim (Bool-cases (normalized == "completed_review")) [
      | inl review ↦ inl (if_true _ _ _ review)
      | inr n ↦ elim (Bool-cases (is_result normalized)) [
        | inl m ↦ inr (if_false _ _ _ n ∙ if_true _ _ _ m)
        | inr k ↦ inr (if_false _ _ _ n ∙ if_false _ _ _ k)
      ]
    ]

next_status_rests :
    (result : String) → (upper (next_status_for_release result) == claimed_passive) ≡ false
next_status_rests result = elim (next_status_cases result) [
  | inl e ↦ ap (λ (x : String). upper x == claimed_passive) e ∙ review_rests
  | inr e ↦ ap (λ (x : String). upper x == claimed_passive) e ∙ ready_rests
]

pub set_claim-IsSound :
    (env : Env) (body : PassiveClaimIn) (e : ℕ) (id : String) (t : Task)
    → is_claimable id t ≡ true
    → IsSound t
    → IsSound (set_claim env body e t)
unfolding set_claim
set_claim-IsSound env body e id t hit h = record {
  resting = claimable_rests (upper (get_or t.status "READY")) (ground (arith, hit));
  owned = λ c. refl;
  named = λ c. refl;
  ending = λ c. refl;
}

-- a task that is set free by a status that is not CLAIMED_PASSIVE
rested :
    (t : Task) (status : String)
    → t.status ≡ some status
    → (upper status == claimed_passive) ≡ false
    → (upper (get_or t.previous_status "READY") == claimed_passive) ≡ false
    → IsSound t
rested t status is rests resting =
    let free : is_claimed t ≡ false =
      ap (λ (s : Option String). upper (get_or s "") == claimed_passive) is ∙ rests in
    record {
      resting = resting;
      owned = λ c. ground (arith, free, c);
      named = λ c. ground (arith, free, c);
      ending = λ c. ground (arith, free, c);
    }

pub undo_claim-IsSound :
    (env : Env) (reason : String) (t : Task) → IsSound t → IsSound (undo_claim env reason t)
unfolding undo_claim
undo_claim-IsSound env reason t h =
    rested _ (get_or t.previous_status "REVIEW") refl (review_default t.previous_status h.resting)
      h.resting

pub set_renewal-IsSound :
    (env : Env) (body : PassiveClaimRenewIn) (e : ℕ) (t : Task)
    → IsSound t
    → IsSound (set_renewal env body e t)
unfolding set_renewal
set_renewal-IsSound env body e t h = record {
  resting = h.resting;
  owned = h.owned;
  named = h.named;
  ending = λ c. refl;
}

pub set_release-IsSound :
    (env : Env) (body : PassiveClaimReleaseIn) (t : Task)
    → IsSound t
    → IsSound (set_release env body t)
unfolding set_release
set_release-IsSound env body t h =
    rested _ (next_status_for_release body.result) refl (next_status_rests body.result) h.resting

pub set_expired-IsSound : (env : Env) (t : Task) → IsSound t → IsSound (set_expired env t)
unfolding set_expired
set_expired-IsSound env t h = rested _ (get_or t.previous_status "READY") refl h.resting h.resting

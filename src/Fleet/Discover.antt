-- ===== src/Fleet/Discover.antt =====
-- fleet.py: `discover`, which reads the nodes and their models from the router.
use auto_assist.Prelude.{
  ℕ, ◌+◌, String, Bool, true, false, not, ◌&&◌, ◌||◌, Option, none, some, List, [], ◌∷◌, ◌++◌, ◌==◌,
  any, ltb, get_or, if◌then◌else◌,
}
use auto_assist.Dict.{Dict, get, put}
use auto_assist.Fleet.Names.{strip_prefix, before_dot, after_dot, prefix}
use auto_assist.Fleet.State.{Config, Candidate, Fleet}

-- the maps that are built from a reply
pub record Maps : Type 0 where
  pub nodes : Dict (Dict String)
  pub model_map : Dict (List Candidate)

abbrev pub is_same : Candidate → Candidate → Bool
is_same c d = c.node == d.node && c.full == d.full && c.model == d.model

-- append unless it is there
abbrev pub add_candidate : Candidate → List Candidate → List Candidate
add_candidate c cs = if any (is_same c) cs then cs else cs ++ c ∷ []

unfoldable pub add_model : String → String → String → Maps → Maps
add_model node model full m = record {
  nodes = put node (put model full (get_or (get node m.nodes) [])) m.nodes;
  model_map =
      put model
        (add_candidate (record { node = node; full = full; model = model })
          (get_or (get model m.model_map) []))
        m.model_map;
}

-- an id that is not `lmstudio-<node>.<model>` is left out
unfoldable pub add_entry : String → Maps → Maps
unfolding strip_prefix before_dot after_dot add_model
add_entry mid m = elim (strip_prefix prefix mid) [
  | none ↦ m
  | some rest ↦
      if before_dot rest == "" || after_dot rest == ""
      then m
      else add_model (before_dot rest) (after_dot rest) mid m
]

unfoldable pub add_entries : List String → Maps → Maps
unfolding add_entry
add_entries [] m = m
add_entries (mid ∷ mids) m = add_entries mids (add_entry mid m)

abbrev is_empty : Dict (Dict String) → Bool
is_empty [] = true
is_empty (x ∷ d) = false

-- now - _last_refresh < REGISTRY_TTL, without a difference that may be below 0
abbrev pub is_fresh : {W : Type 0} → Config → ℕ → Fleet W → Bool
is_fresh c now f = not (is_empty f.nodes) && ltb now (f.last_refresh + c.registry_ttl)

-- `reply` holds the ids of the router's models, or is `none` when the request fails; `later` is the
-- time after it.
unfoldable pub discover :
    {W : Type 0} → Config → ℕ → Bool → Option (List String) → ℕ → Fleet W → Fleet W
unfolding add_entries
discover c now force none later f = f
discover c now force (some mids) later f =
    if not force && is_fresh c now f
    then f
    else (let m = add_entries mids (record { nodes = []; model_map = [] }) in
        record f { nodes = m.nodes; model_map = m.model_map; last_refresh = later })

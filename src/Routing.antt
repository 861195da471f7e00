-- ===== src/Routing.antt =====
-- src/local_coder/models/router.py: which configured model serves a role or a step. A role is its
-- string value, and the configured models are the keys of `config.models`, in their order.
pub mod Laws
use local_coding_agent.Base.{
  String, Bool, true, false, ◌&&◌, not, Option, none, some, List, [], ◌∷◌, ◌++◌, if◌then◌else◌,
  ◌==◌, string_eq, contains,
}
use local_coding_agent.Base.Dict.{Dict, lookup}

pub record ProjectConfig : Type 0 where
  pub models : List String
  pub role_models : Dict String String
  pub escalate_to : Option String
  pub fallbacks : Dict String (List String)

-- The results of `resolve_model_name`: a name, its `ValueError`, and its `RuntimeError`.
pub data Resolved : Type 0 where
  resolved : String → Resolved
  not_configured : String → Resolved
  no_models : Resolved

-- `if name:` on an optional text: `None` and the empty text are false.
abbrev pub truthy : Option String → Option String
truthy none = none
truthy (some s) = if s == "" then none else some s

abbrev first_model : List String → Resolved
first_model [] = no_models
first_model (m ∷ ms) = resolved m

-- The part below the three ways to select a name.
unfoldable pub default_model : ProjectConfig → String → Resolved
default_model config role_name =
    if contains role_name config.models
    then resolved role_name
    else if contains "default" config.models
    then resolved "default"
    else first_model config.models

abbrev pub escalation : ProjectConfig → Bool → Option String
escalation config escalate = if escalate then truthy config.escalate_to else none

abbrev or_else : Option String → Option String → Option String
or_else (some s) other = some s
or_else none other = other

unfoldable pub select : ProjectConfig → String → Option String → Bool → Option String
select config role_name model_name escalate =
    or_else (truthy model_name)
      (or_else (escalation config escalate) (lookup role_name config.role_models))

abbrev check_selected : ProjectConfig → String → Option String → Resolved
check_selected config role_name none = default_model config role_name
check_selected config role_name (some selected) =
    if contains selected config.models then resolved selected else not_configured selected

unfoldable pub resolve_model_name : ProjectConfig → String → Option String → Bool → Resolved
unfolding default_model
resolve_model_name config role_name model_name escalate =
    check_selected config role_name (select config role_name model_name escalate)

-- The loop of `fallback_chain`.
unfoldable pub extend_chain : List String → List String → List String → List String
extend_chain models chain [] = chain
extend_chain models chain (alt ∷ alts) =
    extend_chain models
      (if contains alt models && not (contains alt chain) then chain ++ alt ∷ [] else chain) alts

abbrev pub listed : Option (List String) → List String
listed none = []
listed (some l) = l

unfoldable pub fallback_chain : ProjectConfig → String → List String
fallback_chain config name =
    extend_chain config.models (name ∷ []) (listed (lookup name config.fallbacks))

-- `Coordinator._can_escalate` (orchestrator/coordinator.py): a retry would run on another model.
abbrev differs : Resolved → String → Bool
differs (resolved name) target = not (name == target)
differs (not_configured name) target = false
differs no_models target = false

abbrev is_none : Option String → Bool
is_none none = true
is_none (some s) = false

abbrev can_reach : ProjectConfig → String → Option String → Option String → Bool
can_reach config role model_name none = false
can_reach config role model_name (some target) =
    contains target config.models
    && is_none (truthy model_name)
    && differs (resolve_model_name config role none false) target

unfoldable pub can_escalate : ProjectConfig → String → Option String → Bool
unfolding resolve_model_name
can_escalate config role model_name = can_reach config role model_name (truthy config.escalate_to)

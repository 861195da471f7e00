-- ===== src/Examples/Routes.antt =====
-- A project with three models.
use local_coding_agent.Base.{
  ◌≡◌, ◌≢◌, refl, String, true, false, none, some, List, [], ◌∷◌, Memᴰ, Unique, string_eq,
}
use local_coding_agent.Base.Dict.{lookup}
use local_coding_agent.Routing.{
  ProjectConfig, resolved, resolve_model_name, default_model, select, fallback_chain, can_escalate,
}
use local_coding_agent.Routing.Laws.{fallback_chain_lem, can_escalate_lem}

abbrev config : ProjectConfig
config = record {
  models = "default" ∷ "large" ∷ "small" ∷ [];
  role_models = ("coder", "small") ∷ [];
  escalate_to = some "large";
  fallbacks = ("small", "large" ∷ "gone" ∷ "small" ∷ []) ∷ [];
}

coder-resolve_model_name : resolve_model_name config "coder" none false ≡ resolved "small"
unfolding resolve_model_name default_model select lookup
coder-resolve_model_name = refl

fallback_chain_lem_example :
    (rest : List String) × (fallback_chain config "small" ≡ "small" ∷ rest)
    × ((m : String) → Memᴰ m rest → Memᴰ m config.models)
    × Unique (fallback_chain config "small")
fallback_chain_lem_example = fallback_chain_lem config "small"

coder-can_escalate : can_escalate config "coder" none ≡ true
unfolding can_escalate resolve_model_name default_model select lookup
coder-can_escalate = refl

can_escalate_lem_example :
    (target : String) × (resolve_model_name config "coder" none true ≡ resolved target)
    × (resolve_model_name config "coder" none false ≢ resolved target)
can_escalate_lem_example = can_escalate_lem config "coder" none coder-can_escalate

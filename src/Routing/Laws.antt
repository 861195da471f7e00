-- ===== src/Routing/Laws.antt =====
-- The router answers with configured models only, and its fallback chains repeat no model.
use mathlib.Core.List.Memᴰ
use local_coding_agent.Base.{
  String, ◌≡◌, ◌≢◌, refl, sym, subst, inl, inr, ⊎_elim, Bool, true, false, ◌&&◌, not, Option, List,
  [], ◌∷◌, ◌++◌, Memᴰ, Memᴰ-cons, arith, string_eq, contains, contains_iff, Bool-cases,
  Option-cases, List-cases, Unique, Unique-snoc, append-nil, append_assoc, ◌∙◌,
}
use local_coding_agent.Base.Dict.{lookup}
use local_coding_agent.Routing.{
  ProjectConfig, resolved, default_model, select, truthy, listed, resolve_model_name, extend_chain,
  fallback_chain, can_escalate,
}

default_model-Memᴰ :
    (config : ProjectConfig) (role name : String)
    → default_model config role ≡ resolved name
    → Memᴰ name config.models
unfolding default_model
default_model-Memᴰ config role name h = elim (List-cases config.models) [
  | inl e ↦ absurd (ground arith)
  | inr (m, ms, e) ↦ ground (
    arith,
    contains_iff role config.models,
    contains_iff "default" config.models,
    Memᴰ-cons m m ms,
  )
]

-- A name that the router returns is a configured model, whatever it was selected by.
pub resolve_model_name-Memᴰ :
    (config : ProjectConfig) (role name : String) (model_name : Option String) (escalate : Bool)
    → resolve_model_name config role model_name escalate ≡ resolved name
    → Memᴰ name config.models
unfolding resolve_model_name
resolve_model_name-Memᴰ config role name model_name escalate h =
    elim (Option-cases (select config role model_name escalate)) [
      | inl e ↦ default_model-Memᴰ config role name (ground arith)
      | inr (s, e) ↦ ground (arith, contains_iff s config.models)
    ]

record Extends (models chain out : List String) : Type 0 where
  rest : List String
  split : out ≡ chain ++ rest
  configured : (m : String) → Memᴰ m rest → Memᴰ m models
  unique : Unique out

extend_chain_lem :
    (models chain alts : List String)
    → Unique chain
    → Extends models chain (extend_chain models chain alts)
unfolding extend_chain
extend_chain_lem models chain [] u = record {
  rest = [];
  split = sym (append-nil chain);
  configured = λ m h. absurd (Memᴰ.not-nil h);
  unique = u;
}
extend_chain_lem models chain (alt ∷ alts) u =
    elim (Bool-cases (contains alt models && not (contains alt chain))) [
      | inr skip ↦ rw (skip) (extend_chain_lem models chain alts u)
      | inl take_it ↦ rw (take_it) (
          longer ((contains_iff alt models).0 (ground arith)) (
            extend_chain_lem models (chain ++ alt ∷ []) alts
              (Unique-snoc alt chain (ground arith) u)))
    ]
  where
    longer :
        Memᴰ alt models
        → Extends models (chain ++ alt ∷ []) (extend_chain models (chain ++ alt ∷ []) alts)
        → Extends models chain (extend_chain models (chain ++ alt ∷ []) alts)
    longer known e = record {
      rest = alt ∷ e.rest;
      split = e.split ∙ append_assoc chain (alt ∷ []) e.rest;
      configured = λ m h.
          ⊎_elim (λ p. subst (λ x. Memᴰ x models) (sym p) known) (e.configured m)
            (Memᴰ.cases_cons h);
      unique = e.unique;
    }

-- A fallback chain starts with the model itself, goes on with configured models only, and names
-- no model twice.
pub fallback_chain_lem :
    (config : ProjectConfig) (name : String)
    → (rest : List String) × (fallback_chain config name ≡ name ∷ rest)
      × ((m : String) → Memᴰ m rest → Memᴰ m config.models)
      × Unique (fallback_chain config name)
unfolding fallback_chain
fallback_chain_lem config name =
    let e =
      extend_chain_lem config.models (name ∷ []) (listed (lookup name config.fallbacks))
        (refl, tt) in
    (e.rest, e.split, e.configured, e.unique)

-- Where the coordinator says that it can escalate, the escalated step runs on a model, and not on
-- the one on which the step ran before.
pub can_escalate_lem :
    (config : ProjectConfig) (role : String) (model_name : Option String)
    → can_escalate config role model_name ≡ true
    → (target : String) × (resolve_model_name config role model_name true ≡ resolved target)
      × (resolve_model_name config role model_name false ≢ resolved target)
unfolding can_escalate select
can_escalate_lem config role model_name h = elim (Option-cases (truthy config.escalate_to)) [
  | inl e ↦ absurd (ground arith)
  | inr (target, e) ↦
      (target, ground arith, λ same. ground (arith, string_eq.beq_iff target target))
]

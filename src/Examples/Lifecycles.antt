-- ===== src/Examples/Lifecycles.antt =====
-- A revision that is proposed, evaluated and activated, and overwritten behind the store's back.
use local_coding_agent.Base.{
  ℕ, ◌-◌, nat_eq, ◌≡◌, ◌≤◌, refl, String, string_eq, option_eq, pair_eq, Bool, true, Option, some,
  none, List, [], ◌∷◌, Memᴰ,
}
use local_coding_agent.Base.Dict.{lookup, insert}
use local_coding_agent.Evolution.{
  Revision, Verdict, Store, active, candidate, validated, rejected, Stamp, stamped, insert_event,
  in_order, last_evaluation, candidate_of, key_of, validated_of, propose, validate, activate,
  active_from, active_revisions,
}
use local_coding_agent.Evolution.Lifecycle.{
  Operation, to_propose, to_validate, to_activate, AreBacked, activations, approvals, step, run,
  run-AreBacked,
}
use local_coding_agent.Evolution.Current.{active_revisions_covers}
use local_coding_agent.Evolution.Active.{IsActive, active_revisions_lem}

-- A payload is its own hash; every id and every measured value is taken.
abbrev own_hash : String → String
own_hash payload = payload

abbrev any_id : String → Bool
any_id id = true

abbrev no_name : String → String
no_name payload = ""

abbrev takes_all : String → String → Option String
takes_all kind payload = some payload

abbrev any_value : ℕ → Bool
any_value n = true

abbrev empty_store : Store String
empty_store = record { revisions = []; events = [] }

abbrev passed : Verdict ℕ
passed = record { success = true; measurements = ("tests", 3) ∷ [] }

abbrev at_time : ℕ → Stamp
at_time n = record { time = n; event_id = 50 - n }

abbrev activation : List (Operation String ℕ)
activation =
    to_propose (at_time 1) "r1" "skill" "text"
    ∷ to_validate (at_time 2) "r1" (some passed)
    ∷ to_activate (at_time 3) "r1" true
    ∷ []

abbrev proposed : Revision String
proposed = record { revision_id = "r1"; kind = "skill"; payload = "text"; digest = "text" }

abbrev altered : Revision String
altered = record { revision_id = "r1"; kind = "skill"; payload = "other"; digest = "text" }

abbrev activated : Store String
activated = record {
  revisions = ("r1", proposed) ∷ [];
  events =
      stamped (at_time 3) "r1" active (some "text")
      ∷ stamped (at_time 2) "r1" validated (some "text")
      ∷ stamped (at_time 1) "r1" candidate none
      ∷ [];
}

activation-run : run own_hash any_id no_name takes_all any_value activation empty_store ≡ activated
unfolding run step propose validate activate validated_of candidate_of last_evaluation in_order
    insert_event lookup insert
activation-run = refl

activated-active : active_revisions own_hash any_id no_name activated ≡ some (proposed ∷ [])
unfolding active_revisions active_from validated_of candidate_of last_evaluation in_order
    insert_event lookup insert
activated-active = refl

altered-active :
    active_revisions own_hash any_id no_name (record activated { revisions = ("r1", altered) ∷ [] })
    ≡ none
unfolding active_revisions active_from validated_of candidate_of last_evaluation in_order
    insert_event lookup insert
altered-active = refl

-- An evaluation that rejects the revision with a later time stops it, in whichever order the records
-- are found.
rejected-active :
    active_revisions own_hash any_id no_name (record activated {
      events =
          stamped (at_time 1) "r1" candidate none
          ∷ stamped (at_time 4) "r1" rejected (some "text")
          ∷ stamped (at_time 3) "r1" active (some "text")
          ∷ stamped (at_time 2) "r1" validated (some "text")
          ∷ [];
    })
    ≡ none
unfolding active_revisions active_from validated_of candidate_of last_evaluation in_order
    insert_event lookup insert
rejected-active = refl

run-AreBacked_example :
    let events = (run own_hash any_id no_name takes_all any_value activation empty_store).events in
    AreBacked events
    × (activations events ≤ approvals own_hash any_id no_name takes_all any_value activation)
run-AreBacked_example = run-AreBacked own_hash any_id no_name takes_all any_value activation

active_revisions_lem_example : IsActive own_hash any_id no_name activated proposed
active_revisions_lem_example =
    active_revisions_lem own_hash any_id no_name activated (proposed ∷ []) proposed activated-active
      (Memᴰ.head refl)

active_revisions_covers_example :
    (r : Revision String) × (lookup "r1" activated.revisions ≡ some r)
    × (current : Revision String) × Memᴰ current (proposed ∷ [])
    × (key_of own_hash any_id no_name current ≡ key_of own_hash any_id no_name r)
active_revisions_covers_example =
    active_revisions_covers own_hash any_id no_name activated (proposed ∷ [])
      (stamped (at_time 3) "r1" active (some "text")) activated-active (Memᴰ.head refl) refl

-- ===== src/Lifecycle/Store.antt =====
-- The store of the missions, and the transitions of a mission.
use jean_bot.Common.{
  String, Option, none, some, List, [], ◌∷◌, ◌++◌, map, if◌then◌else◌, ◌==◌, string_eq, find,
  or_default, template,
}
use jean_bot.Types.{
  MissionStatus, ApprovalStatus, mission_status_name, ApprovalRecord, MissionRecord,
  MissionRunResult, Stamps, MissionStateTransition,
}

-- One mission: the record in the process's map, the record that is persisted (a copy of its own),
-- and the persisted list of its transitions.
pub record MissionStateStore : Type 0 where
  pub cached : MissionRecord
  pub persisted : MissionRecord
  pub log : List MissionStateTransition

-- How an operation ends, with the store that it leaves.
pub data Outcome : Type 0 where
  returned : MissionStateStore → Outcome
  threw : MissionStateStore → Outcome

abbrev pub store_of : Outcome → MissionStateStore
store_of (returned s) = s
store_of (threw s) = s

-- The next call, where the one before did not throw.
abbrev pub and_then : Outcome → (MissionStateStore → Outcome) → Outcome
and_then (returned s) next = next s
and_then (threw s) next = threw s

unfoldable pub save : MissionRecord → MissionStateStore → MissionStateStore
save mission store = record { cached = mission; persisted = mission; log = store.log }

-- `get`: the persisted record goes into the map.
unfoldable pub get : MissionStateStore → MissionStateStore
get store = record store { cached = store.persisted }

unfoldable pub append_transition : MissionStateTransition → MissionStateStore → MissionStateStore
append_transition transition store = record store { log = store.log ++ transition ∷ [] }

unfoldable pub update_result : Stamps → MissionRunResult → MissionStateStore → MissionStateStore
unfolding save
update_result stamps result store =
    save
      (record store.cached {
        result = some result;
        status = result.status;
        last_updated_at = stamps.iso 0;
      })
      store

-- `saveApproval` of the persisted records.
unfoldable pub save_approval : ApprovalRecord → MissionStateStore → MissionStateStore
save_approval approval store = record store {
  persisted = record store.persisted {
    approvals = some (or_default store.persisted.approvals [] ++ approval ∷ []);
  };
}

unfoldable pub approved : Stamps → String → ApprovalRecord → ApprovalRecord
approved stamps approver_id approval = record approval {
  status = ApprovalStatus.approved;
  approved_by = some approver_id;
  updated_at = stamps.iso 0;
}

-- The approval that `find` found is changed in place.
unfoldable pub replace_first : String → ApprovalRecord → List ApprovalRecord → List ApprovalRecord
replace_first approval_id updated [] = []
replace_first approval_id updated (a ∷ approvals) =
    let later = a ∷ replace_first approval_id updated approvals in
    if a.id == approval_id then updated ∷ approvals else later

abbrev pub replace_all : String → ApprovalRecord → List ApprovalRecord → List ApprovalRecord
replace_all approval_id updated approvals =
    map (λ a. if a.id == approval_id then updated else a) approvals

-- `approve`: the persisted approval is changed first, then the record of the map, which is saved.
unfoldable pub approve_found : String → ApprovalRecord → MissionStateStore → MissionStateStore
unfolding save replace_first
approve_found approval_id updated store =
    save
      (record store.cached {
        approvals = some (replace_all approval_id updated (or_default store.cached.approvals []));
      })
      (record store {
        persisted = record store.persisted {
          approvals =
              some (replace_first approval_id updated (or_default store.persisted.approvals []));
        };
      })

unfoldable pub approve_if_found :
    Stamps → String → String → MissionStateStore → Option ApprovalRecord → Option MissionStateStore
unfolding approve_found approved
approve_if_found stamps approval_id approver_id store none = none
approve_if_found stamps approval_id approver_id store (some a) =
    some (approve_found approval_id (approved stamps approver_id a) store)

abbrev pub approval_of : String → MissionRecord → Option ApprovalRecord
approval_of approval_id mission = find (λ a. a.id == approval_id) (or_default mission.approvals [])

unfoldable pub approve : Stamps → String → String → MissionStateStore → Option MissionStateStore
unfolding approve_if_found
approve stamps approval_id approver_id store =
    approve_if_found stamps approval_id approver_id store (approval_of approval_id store.persisted)

unfoldable pub create_transition :
    Stamps → String → MissionStatus → MissionStatus → String → String → MissionStateTransition
create_transition stamps mission_id from to reason actor = record {
  id = stamps.uuid 0;
  mission_id = mission_id;
  from = from;
  to = to;
  reason = reason;
  actor = actor;
  created_at = stamps.iso 0;
}

abbrev pub with_transition : MissionStateTransition → MissionRecord → MissionRecord
with_transition transition mission = record mission {
  transitions = some (or_default mission.transitions [] ++ transition ∷ []);
}

unfoldable pub transition_mission :
    Stamps → MissionStatus → String → String → MissionStateStore → MissionStateStore
unfolding save get append_transition create_transition
transition_mission stamps to reason actor store =
    let mission = store.persisted in
    let transition = create_transition stamps mission.objective.id mission.status to reason actor in
    let updated =
      with_transition transition (record mission { status = to; last_updated_at = stamps.iso 1 }) in
    append_transition transition (save updated (get store))

-- `setMissionStatus`.
unfoldable pub set_mission_status : Stamps → MissionStatus → MissionStateStore → MissionStateStore
unfolding transition_mission
set_mission_status stamps status store =
    transition_mission stamps status
      (template ("Mission status manually set to " ∷ mission_status_name status ∷ "." ∷ []))
      "agent-orchestrator" store

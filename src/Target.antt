-- ===== src/Target.antt =====
-- core/target/store.go: the conversations that an owner can send to, and which one is current.
-- A missing owner stands for a nil pointer; `clone` copies the state and is the state itself here.
-- A new UUID comes from outside.
use codex_link_clawbot.Prelude.{
  ◌==◌, if◌then◌else◌, reject_if, ◌>>=◌, ◌>>◌, Fallible, ok, err, length, all, any, ℕ, suc, ◌+◌,
  ◌%◌, ◌^◌, Bool, true, false, ◌&&◌, ◌||◌, not, Option, none, some, [], ◌∷◌,
}
use codex_link_clawbot.Text.{Text, text_eq, is_empty, trim_space}
use codex_link_clawbot.Map.{Map, lookup, insert, get_or}
use codex_link_clawbot.Request.Storage.{delete_missing, put_changed}
pub mod Moves
pub mod Bindings
pub mod Rows
use native.Mathlib.Decide.{ℕ_discrete}

pub record Intent : Type 0 where
  pub id : Text
  pub workspace_id : Text
  pub thread_id : Text

pub record OwnerState : Type 0 where
  pub workspace_id : Text
  pub current : Map Text
  pub intents : Map Intent

pub data TargetError : Type 0 where
  no_default_workspace invalid_target_schema invalid_target_owner invalid_target_intent :
      TargetError
  invalid_current_target target_not_saved target_unavailable thread_required : TargetError
  selection_changed names_required target_owner_unavailable already_resolved : TargetError
  intent_without_owner : TargetError

-- `Store`, with the rows of `target_owners`, `target_intents` and `target_selections` by owner.
pub record Targets : Type 0 where
  pub default_workspace : Text
  pub version : ℕ
  pub owners : Map OwnerState
  pub revisions : Map ℕ
  pub rows : Map OwnerState

-- `Selection`
pub record Selection : Type 0 where
  pub intent : Intent
  pub revision : ℕ

-- What a call takes from outside: `uuid.Parse`, new UUIDs, and whether SQLite commits.
pub record TargetWorld : Type 0 where
  pub is_uuid : Text → Bool
  pub new_id : ℕ → Text
  pub commits : Bool

pub Text-discrete : Discrete Text
Text-discrete = hlevel ℕ_discrete

pub Intent-discrete : Discrete Intent
Intent-discrete = hlevel ℕ_discrete

unfoldable pub intent_eq : Intent → Intent → Bool
intent_eq a b =
    text_eq a.id b.id && text_eq a.workspace_id b.workspace_id && text_eq a.thread_id b.thread_id

unfoldable pub bad_intent : Text × Intent → Bool
bad_intent e = not (text_eq e.0 e.1.id) || is_empty e.1.workspace_id

unfoldable pub bad_current : Map Intent → Text × Text → Bool
bad_current intents e = elim (lookup e.1 intents) [
  | none ↦ true
  | some i ↦ not (text_eq i.workspace_id e.0)
]

-- The round of `validate` for one owner.
unfoldable pub validate_owner : (Text → Bool) → Text × OwnerState → Fallible TargetError (Unit {0})
unfolding bad_intent bad_current
validate_owner is_uuid e = do
  reject_if (is_empty (trim_space e.0) || is_empty e.1.workspace_id) invalid_target_owner
  reject_if (any (λ i. bad_intent i || not (is_uuid i.0)) e.1.intents) invalid_target_intent
  reject_if (any (bad_current e.1.intents) e.1.current) invalid_current_target

unfoldable pub validate_owners : (Text → Bool) → Map OwnerState → Fallible TargetError (Unit {0})
unfolding validate_owner
validate_owners is_uuid [] = ok tt
validate_owners is_uuid (e ∷ rest) = do validate_owner is_uuid e; validate_owners is_uuid rest

-- `validate`
unfoldable pub validate_targets :
    (Text → Bool) → ℕ → Map OwnerState → Fallible TargetError (Unit {0})
unfolding validate_owners
validate_targets is_uuid version owners = do
  reject_if (not (version == 1)) invalid_target_schema
  validate_owners is_uuid owners

abbrev pub empty_owner : Text → OwnerState
empty_owner workspace = record { workspace_id = workspace; current = []; intents = [] }

-- `owner`: the state of an owner, a new one where there is none.
unfoldable pub owner_of : Text → Targets → OwnerState
owner_of owner s = get_or owner (empty_owner s.default_workspace) s.owners

-- The intent that is current in a workspace.
unfoldable pub intent_in : Text → OwnerState → Option Intent
intent_in workspace o = lookup (get_or workspace [] o.current) o.intents

abbrev pub bare_intent : Text → Intent
bare_intent workspace = record { id = []; workspace_id = workspace; thread_id = [] }

-- `currentLocked`, and `Current`
unfoldable pub current_locked : Text → Targets → Intent
unfolding intent_in
current_locked owner s = elim (lookup owner s.owners) [
  | none ↦ bare_intent s.default_workspace
  | some o ↦ elim (intent_in o.workspace_id o) [ some i ↦ i | none ↦ bare_intent o.workspace_id ]
]

abbrev pub revision_of : Text → Targets → ℕ
revision_of owner s = get_or owner 0 s.revisions

-- `Snapshot`
unfoldable pub snapshot_target : Text → Targets → Selection
unfolding current_locked
snapshot_target owner s = record { intent = current_locked owner s; revision = revision_of owner s }

-- `Resolve`
unfoldable pub resolve : Text → Text → Targets → Fallible TargetError Intent
resolve owner id s = elim (lookup owner s.owners) [
  | none ↦ err target_unavailable
  | some o ↦ elim (lookup id o.intents) [ some i ↦ ok i | none ↦ err target_unavailable ]
]

-- `maps.Equal`
unfoldable pub same_current : Map Text → Map Text → Bool
same_current a b =
    length a == length b
    && all (λ e. elim (lookup e.0 b) [ none ↦ false | some v ↦ text_eq e.1 v ]) a

-- Whether an owner's selection is not what it was.
unfoldable pub has_moved : Option OwnerState → OwnerState → Bool
unfolding same_current
has_moved none o = true
has_moved (some old) o =
    not (text_eq old.workspace_id o.workspace_id) || not (same_current old.current o.current)

-- `s.revisions[id]++` on an unsigned 64-bit number.
unfoldable pub bump : Text → Map ℕ → Map ℕ
bump owner revisions = insert owner ((get_or owner 0 revisions + 1) % 2 ^ 64) revisions

-- The loop over the owners after the save.
unfoldable pub bump_moved : Map OwnerState → Map OwnerState → Map ℕ → Map ℕ
unfolding has_moved bump
bump_moved previous [] revisions = revisions
bump_moved previous ((owner, o) ∷ rest) revisions =
    bump_moved previous rest
      (if has_moved (lookup owner previous) o then bump owner revisions else revisions)

-- The rows of one owner: what has changed is put, and what is gone is deleted after it. An owner
-- without a workspace has an entry here too, where the table has no row.
unfoldable pub write_owner : OwnerState → OwnerState → OwnerState → OwnerState
unfolding put_changed delete_missing
write_owner previous o row = record {
  workspace_id =
      if text_eq previous.workspace_id o.workspace_id then row.workspace_id else o.workspace_id;
  current =
      delete_missing previous.current o.current
        (put_changed Text-discrete previous.current o.current row.current);
  intents =
      delete_missing previous.intents o.intents
        (put_changed Intent-discrete previous.intents o.intents row.intents);
}

unfoldable pub write_owners : Map OwnerState → Map OwnerState → Map OwnerState → Map OwnerState
unfolding write_owner
write_owners previous [] rows = rows
write_owners previous ((owner, o) ∷ rest) rows = write_owners previous rest (
    insert owner
      (write_owner (get_or owner (empty_owner []) previous) o (get_or owner (empty_owner []) rows))
      rows)

-- `commit`
unfoldable pub commit_targets :
    TargetWorld → Map OwnerState → Targets → Fallible TargetError Targets
unfolding validate_targets bump_moved write_owners delete_missing
commit_targets w next s = do
  validate_targets w.is_uuid 1 next
  if w.commits
      then (ok (record s {
        version = 1;
        owners = next;
        revisions = bump_moved s.owners next s.revisions;
        rows = write_owners s.owners next (delete_missing s.owners next s.rows);
      }))
      else err target_not_saved

-- A call's answer after its commit; a commit that fails leaves the state.
abbrev pub answer :
    {A : Type 0} → Targets → A → Fallible TargetError Targets → Targets × Fallible TargetError A
answer s a (ok s') = (s', ok a)
answer s a (err e) = (s, err e)

-- An owner's intent of a workspace and a thread: of several, the first in the order of the list,
-- where the source takes the first of its range.
unfoldable pub find_intent : Text → Text → Map Intent → Option Intent
find_intent workspace thread [] = none
find_intent workspace thread ((id, i) ∷ rest) =
    let later = find_intent workspace thread rest in
    if text_eq i.workspace_id workspace && text_eq i.thread_id thread then some i else later

abbrev pub select_intent : Intent → Text → OwnerState → OwnerState
select_intent i workspace o = record {
  workspace_id = workspace;
  current = insert workspace i.id o.current;
  intents = insert i.id i o.intents;
}

abbrev pub new_intent : TargetWorld → Text → Text → Intent
new_intent w workspace thread = record {
  id = w.new_id 0;
  workspace_id = workspace;
  thread_id = thread;
}

-- `Remember`
unfoldable pub remember :
    TargetWorld → Text → Text → Text → Bool → Targets → Targets × Fallible TargetError Intent
unfolding owner_of find_intent commit_targets
remember w owner workspace thread is_current s =
    let o = owner_of owner s in
    elim (find_intent workspace thread o.intents) [
      | some existing ↦
          if is_current
          then answer s existing
              (commit_targets w (insert owner (select_intent existing workspace o) s.owners) s)
          else (s, ok existing)
      | none ↦
          let i = new_intent w workspace thread in
          let next : OwnerState =
            if is_current
            then select_intent i workspace o
            else record o { intents = insert i.id i o.intents } in
          answer s i (commit_targets w (insert owner next s.owners) s)
    ]

-- `Capture`
unfoldable pub capture : TargetWorld → Text → Targets → Targets × Fallible TargetError Intent
unfolding owner_of intent_in commit_targets
capture w owner s =
    let o = owner_of owner s in
    elim (intent_in o.workspace_id o) [
      | some i ↦ (s, ok i)
      | none ↦
          let i = new_intent w o.workspace_id [] in
          answer s i (commit_targets w (insert owner (select_intent i o.workspace_id o) s.owners) s)
    ]

-- The intent that `selectLocked` selects.
unfoldable pub chosen_intent : TargetWorld → Text → Text → OwnerState → Intent
unfolding intent_in find_intent
chosen_intent w workspace thread o =
    let fresh = new_intent w workspace thread in
    let known : Intent = elim (find_intent workspace thread o.intents) [
      | some i ↦ i
      | none ↦ fresh
    ] in
    let other = if is_empty thread then fresh else known in
    elim (intent_in workspace o) [
      | none ↦ other
      | some i ↦ if not (is_empty thread) && not (text_eq i.thread_id thread) then other else i
    ]

-- `selectLocked`, and `SelectWorkspace` with no thread.
unfoldable pub select_locked :
    TargetWorld → Text → Text → Text → Targets → Targets × Fallible TargetError Intent
unfolding owner_of chosen_intent commit_targets
select_locked w owner workspace thread s =
    let o = owner_of owner s in
    let i = chosen_intent w workspace thread o in
    answer s i (commit_targets w (insert owner (select_intent i workspace o) s.owners) s)

-- `SelectThread`
unfoldable pub select_thread :
    TargetWorld → Text → Text → Text → Selection → Targets → Targets × Fallible TargetError Intent
unfolding current_locked intent_eq select_locked
select_thread w owner workspace thread expected s =
    if is_empty (trim_space thread)
    then (s, err thread_required)
    else if not (intent_eq (current_locked owner s) expected.intent)
        || not (revision_of owner s == expected.revision)
    then (s, err selection_changed)
    else select_locked w owner workspace thread s

-- `NewConversation`
unfoldable pub new_conversation :
    TargetWorld → Text → Text → Targets → Targets × Fallible TargetError Intent
unfolding owner_of commit_targets
new_conversation w owner workspace s =
    let i = new_intent w workspace [] in
    if is_empty (trim_space owner) || is_empty (trim_space workspace)
    then (s, err names_required)
    else answer s i
        (commit_targets w (insert owner (select_intent i workspace (owner_of owner s)) s.owners) s)

abbrev pub bind_intent : Intent → Text → Text → OwnerState → OwnerState
bind_intent i id thread o = record o {
  intents = insert id (record i { thread_id = thread }) o.intents;
}

-- `Bind`
unfoldable pub bind :
    TargetWorld → Text → Text → Text → Targets → Targets × Fallible TargetError (Unit {0})
unfolding commit_targets
bind w owner id thread s = elim (lookup owner s.owners) [
  | none ↦ (s, err target_owner_unavailable)
  | some o ↦ elim (lookup id o.intents) [
    | none ↦ (s, err target_unavailable)
    | some i ↦
        if is_empty (trim_space thread)
        then (s, err target_unavailable)
        else if not (is_empty i.thread_id) && not (text_eq i.thread_id thread)
        then (s, err already_resolved)
        else answer s tt (commit_targets w (insert owner (bind_intent i id thread o) s.owners) s)
  ]
]

-- The loop of `ClearThread`; `k` numbers the new intents.
unfoldable pub clear_current : TargetWorld → Text → ℕ → Map Text → OwnerState → OwnerState
clear_current w thread k [] o = o
clear_current w thread k ((workspace, id) ∷ rest) o =
    let i : Intent = record { id = w.new_id k; workspace_id = workspace; thread_id = [] } in
    let held : Text = elim (lookup id o.intents) [ none ↦ [] | some x ↦ x.thread_id ] in
    clear_current w thread (suc k) rest (
      if text_eq held thread
      then record o { intents = insert i.id i o.intents; current = insert workspace i.id o.current }
      else o)

-- `ClearThread`
unfoldable pub clear_thread :
    TargetWorld → Text → Text → Targets → Targets × Fallible TargetError (Unit {0})
unfolding clear_current commit_targets
clear_thread w owner thread s = elim (lookup owner s.owners) [
  | none ↦ (s, ok tt)
  | some o ↦
      answer s tt
        (commit_targets w (insert owner (clear_current w thread 0 o.current o) s.owners) s)
]

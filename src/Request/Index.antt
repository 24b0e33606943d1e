-- ===== src/Request/Index.antt =====
-- core/request/model.go and store.go: the index in memory, its validation and its lookups.
use codex_link_clawbot.Prelude.{
  ltb, ◌==◌, if◌then◌else◌, ◌>>=◌, ◌>>◌, reject_if, Fallible, ok, length, any, Bool, ◌&&◌, ◌||◌,
  not, Option, none, some, List, [], ◌∷◌, ◌++◌,
}
use codex_link_clawbot.Text.{
  Text, text, text_eq, is_empty, trim_space, is_task_id, valid_single_line,
}
use codex_link_clawbot.Map.{Map, get_or}
use codex_link_clawbot.Request.Types.{
  state_eq, terminal, index_version, max_records_per_owner, State, running, delivering, Task,
  Rejection, ClearedReceipt, Index, Error, invalid_index_schema, invalid_owner, duplicated_id,
  duplicated_source, several_active, owner_limit, invalid_cleared, cleared_has_execution,
  invalid_rejection, rejected_has_execution,
}
use codex_link_clawbot.Request.Valid.{bad_owner, validate_task}
pub mod Lookup
pub mod Follow

-- `SessionKey`: a session that exists is known by its thread, a new one by its owner's intent.
unfoldable pub session_key : Text → Text → Text → Text
unfolding is_empty text
session_key owner target thread =
    if is_empty thread then text "intent:" ++ (owner ++ (58 ∷ target)) else text "thread:" ++ thread

abbrev pub task_session : Task → Text
task_session t = session_key t.owner_id t.target_id t.thread_id

-- `task.State == StateRunning || task.State == StateDelivering`
unfoldable pub is_active : State → Bool
unfolding state_eq
is_active s = state_eq s running || state_eq s delivering

unfoldable pub member : Text → List Text → Bool
member k ks = any (λ j. text_eq j k) ks

-- The maps `ids`, `sources` and `active` of `validateIndex`.
pub record Seen : Type 0 where
  pub ids : List Text
  pub sources : List Text
  pub sessions : List Text

abbrev pub nothing_seen : Seen
nothing_seen = record { ids = []; sources = []; sessions = [] }

-- What the scan has seen after a task.
abbrev pub see : Seen → Task → Seen
see seen t = record {
  ids = t.id ∷ seen.ids;
  sources = t.source_message_key ∷ seen.sources;
  sessions = if is_active t.state then task_session t ∷ seen.sessions else seen.sessions;
}

unfoldable pub scan_task : Text → Seen → Task → Fallible Error Seen
scan_task owner seen t = do
  validate_task t owner
  reject_if (member t.id seen.ids) duplicated_id
  reject_if (member t.source_message_key seen.sources) duplicated_source
  reject_if (is_active t.state && member (task_session t) seen.sessions) several_active
  ok (see seen t)

unfoldable pub scan_tasks : Text → Seen → List Task → Fallible Error Seen
unfolding scan_task
scan_tasks owner seen [] = ok seen
scan_tasks owner seen (t ∷ ts) = scan_task owner seen t >>= λ later. scan_tasks owner later ts

unfoldable pub scan_owners : Seen → Map (List Task) → Fallible Error Seen
unfolding scan_tasks
scan_owners seen [] = ok seen
scan_owners seen ((owner, tasks) ∷ rest) = do
  reject_if (bad_owner owner) invalid_owner
  later ← scan_tasks owner seen tasks
  reject_if (ltb max_records_per_owner (length tasks)) owner_limit
  scan_owners later rest

unfoldable pub scan_cleared : List Text → Map ClearedReceipt → Fallible Error (List Text)
scan_cleared sources [] = ok sources
scan_cleared sources ((source, r) ∷ rest) = do
  reject_if
      (not (valid_single_line source 512)
        || not (valid_single_line r.owner_id 512)
        || not (is_task_id r.task_id)
        || not (terminal r.state)
        || r.at == 0)
      invalid_cleared
  reject_if (member source sources) cleared_has_execution
  scan_cleared (source ∷ sources) rest

unfoldable pub scan_rejected : List Text → Map Rejection → Fallible Error (Unit {0})
scan_rejected sources [] = ok tt
scan_rejected sources ((source, r) ∷ rest) = do
  reject_if
      (not (text_eq source r.source)
        || not (valid_single_line source 512)
        || not (valid_single_line r.owner_id 512)
        || r.at == 0)
      invalid_rejection
  reject_if (member source sources) rejected_has_execution
  scan_rejected sources rest

-- `validateIndex`
unfoldable pub validate_index : Index → Fallible Error (Unit {0})
validate_index i = do
  reject_if (not (i.version == index_version) || ltb i.next_order 1) invalid_index_schema
  seen ← scan_owners nothing_seen i.owners
  sources ← scan_cleared seen.sources i.cleared
  scan_rejected sources i.rejected

-- `taskIndex` with the read at the place that it finds.
unfoldable pub find_task : Text → List Task → Option Task
find_task id [] = none
find_task id (t ∷ ts) = if text_eq t.id id then some t else find_task id ts

-- The write of `owner.Tasks[index]` at the place that `taskIndex` finds.
unfoldable pub replace_task : Text → Task → List Task → List Task
replace_task id new [] = []
replace_task id new (t ∷ ts) = if text_eq t.id id then new ∷ ts else t ∷ replace_task id new ts

-- `Owners[owner].Tasks`, which is empty for an owner that is not there.
abbrev pub tasks_of : Text → Index → List Task
tasks_of owner i = get_or owner [] i.owners

-- `findTaskLocked`
unfoldable pub find_task_locked : Index → Text → Text → Option Task
unfolding find_task
find_task_locked i owner id = find_task id (tasks_of owner i)

abbrev pub find_source : Text → List Task → Option Task
find_source source [] = none
find_source source (t ∷ ts) =
    if text_eq t.source_message_key source then some t else find_source source ts

unfoldable pub find_source_in : Text → Map (List Task) → Option Task
find_source_in source [] = none
find_source_in source ((owner, ts) ∷ rest) =
    let later = find_source_in source rest in
    elim (find_source source ts) [ some t ↦ some t | none ↦ later ]

-- `findBySourceLocked`
unfoldable pub find_by_source_locked : Index → Text → Option Task
unfolding find_source_in
find_by_source_locked i source = find_source_in source i.owners

-- `Find` and `FindBySource`
unfoldable pub find : Index → Text → Text → Option Task
find i owner id = find_task_locked i (trim_space owner) (trim_space id)

unfoldable pub find_by_source : Index → Text → Option Task
find_by_source i source = find_by_source_locked i (trim_space source)

abbrev pub holds_session : Text → Text → Task → Bool
holds_session target thread t =
    not (terminal t.state)
    && ((not (is_empty target) && text_eq t.target_id target)
        || (not (is_empty thread) && text_eq t.thread_id thread))

abbrev pub first_active : Text → Text → List Task → Option Task
first_active target thread [] = none
first_active target thread (t ∷ ts) =
    if holds_session target thread t then some t else first_active target thread ts

-- `Store.Active`
unfoldable pub active_task : Index → Text → Text → Text → Option Task
active_task i owner target thread = first_active target thread (tasks_of owner i)

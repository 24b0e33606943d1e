-- ===== src/Request/Release.antt =====
-- core/request/completion.go and store.go: the removal of an ended request by its owner, and the
-- report on the room that is left.
pub mod Cleared
pub mod Expiry
use codex_link_clawbot.Prelude.{
  ltb, ◌==◌, if◌then◌else◌, Fallible, ok, err, length, filter, sum_of, ℕ, ◌+◌, Bool, ◌&&◌, ◌||◌,
  not, none, some, List, [], ◌∷◌,
}
use codex_link_clawbot.Text.{Text, text_eq, trim_space}
use codex_link_clawbot.Map.{Map, insert, delete, contains}
use codex_link_clawbot.Request.Types.{
  state_eq, terminal, max_records_per_owner, max_result_store_bytes, max_input_store_bytes,
  history_retention, State, running, delivering, succeeded, failed, interrupted, cancelled, Task,
  ClearedReceipt, Index, Error, not_terminal, files_failed,
}
use codex_link_clawbot.Request.Index.{tasks_of, find_task_locked}
use codex_link_clawbot.Request.Storage.{no_extra, save_locked, Store, World}
use codex_link_clawbot.Request.Retention.{all_tasks, payload_bytes_locked, result_bytes_locked}

abbrev pub with_cleared : Text → List Task → Map ClearedReceipt → Store → Store
with_cleared owner tasks cleared s = record s {
  index = record (s.index) { owners = insert owner tasks s.index.owners; cleared = cleared };
}

abbrev pub cleared_receipt : Text → Text → Task → ClearedReceipt
cleared_receipt owner id t = record {
  owner_id = owner;
  task_id = id;
  state = t.state;
  execution_completed_at = t.execution_completed_at;
  at = t.finished_at;
}

-- `Release`: the receipt is saved before the files go.
unfoldable pub release : World → Text → Text → Store → Store × Fallible Error (Unit {0})
unfolding find_task_locked terminal
release w owner id s = elim (find_task_locked s.index owner id) [
  | none ↦ (s, err not_terminal)
  | some t ↦
      if not (terminal t.state)
      then (s, err not_terminal)
      else let previous = tasks_of owner s.index in
        let left = filter (λ x. not (text_eq x.id id)) previous in
        let cleared = insert t.source_message_key (cleared_receipt owner id t) s.index.cleared in
        let released = with_cleared owner left cleared s in
        elim (save_locked w.commit no_extra released) [
          | ok saved ↦ (saved, if w.removable id then ok tt else err files_failed)
          | err e ↦
              (with_cleared owner previous (delete t.source_message_key cleared) released, err e)
        ]
]

-- `WasCleared`
unfoldable pub was_cleared : Text → Store → Bool
unfolding contains
was_cleared source s = contains source s.index.cleared

pub record Capacity : Type 0 where
  pub input_bytes : ℕ
  pub result_bytes : ℕ
  pub records : ℕ
  pub input_limit : ℕ
  pub result_limit : ℕ
  pub record_limit : ℕ
  pub next_expiry : ℕ

-- One step of the loop for the next expiry; 0 stands for none.
unfoldable pub earlier : ℕ → ℕ → ℕ → ℕ
earlier now best at = if ltb now at && (best == 0 || ltb at best) then at else best

unfoldable pub next_expiry_of : ℕ → ℕ → List Task → ℕ
unfolding earlier
next_expiry_of now best [] = best
next_expiry_of now best (t ∷ ts) =
    next_expiry_of now
      (earlier now (earlier now (earlier now best t.payload_expires_at) t.result_expires_at)
        (t.finished_at + history_retention))
      ts

-- `Capacity`
unfoldable pub capacity_of : ℕ → Text → Index → Capacity
unfolding next_expiry_of payload_bytes_locked result_bytes_locked
capacity_of now owner i = record {
  input_bytes = payload_bytes_locked now i;
  result_bytes = result_bytes_locked now i;
  records = length (tasks_of owner i);
  input_limit = max_input_store_bytes;
  result_limit = max_result_store_bytes;
  record_limit = max_records_per_owner;
  next_expiry = next_expiry_of now 0 (all_tasks i.owners);
}

pub record OwnerStatus : Type 0 where
  pub running_count : ℕ
  pub delivering_count : ℕ
  pub succeeded_count : ℕ
  pub failed_count : ℕ
  pub interrupted_count : ℕ
  pub cancelled_count : ℕ

unfoldable pub count_state : State → List Task → ℕ
unfolding state_eq
count_state st = sum_of (λ t. if state_eq t.state st then 1 else 0)

-- `Status`
unfoldable pub status : Text → Index → OwnerStatus
unfolding count_state
status owner i =
    let tasks = tasks_of (trim_space owner) i in
    record {
      running_count = count_state running tasks;
      delivering_count = count_state delivering tasks;
      succeeded_count = count_state succeeded tasks;
      failed_count = count_state failed tasks;
      interrupted_count = count_state interrupted tasks;
      cancelled_count = count_state cancelled tasks;
    }

-- `ExecutionStatus`: the running and the delivering tasks of all owners.
unfoldable pub execution_status : Index → ℕ × ℕ
unfolding count_state all_tasks
execution_status i =
    (count_state running (all_tasks i.owners), count_state delivering (all_tasks i.owners))

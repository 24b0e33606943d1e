-- ===== src/Request/Delivery/Checkpoint.antt =====
-- core/request/completion.go: the checkpoint of a completed execution.
use codex_link_clawbot.Prelude.{
  max, Fallible-cases, Fallible, ok, ℕ, ◌≤◌, ◌≡◌, refl, subst, inl, inr, true, some, List, [], ◌∷◌,
  arith,
}
use codex_link_clawbot.Text.{Text, text, text_eq_refl, len, trim_space}
use codex_link_clawbot.Map.{lookup-insert_self}
use codex_link_clawbot.Request.Types.{state_eq, max_result_reply_bytes, running, Task, Error}
use codex_link_clawbot.Request.Index.{find_task, tasks_of, find_task_locked, find}
use codex_link_clawbot.Request.Index.Lookup.{find_task-id}
use codex_link_clawbot.Request.Storage.{Extra, Store, World}
use codex_link_clawbot.Request.Lifecycle.{stage_result_pending, with_tasks, update_task_locked}
use codex_link_clawbot.Request.Lifecycle.Effect.{find-with_tasks}
use codex_link_clawbot.Request.Lifecycle.Transition.{locate-ok, locate-find}
use codex_link_clawbot.Request.Lifecycle.Update.{update_task_locked-ok, update_task_locked-atomic}
use codex_link_clawbot.Request.Delivery.{complete_at, put_completion, overwrite, complete_execution}

find_task-overwrite :
    (id : Text) (new : Task) (ts : List Task) {t : Task}
    → find_task id ts ≡ some t
    → new.id ≡ id
    → find_task id (overwrite id new ts) ≡ some new
unfolding find_task
find_task-overwrite id new [] h e = absurd (ground arith)
find_task-overwrite id new (x ∷ ts) {t} h e =
    ground (arith, text_eq_refl id, find_task-overwrite id new ts {t = t})

-- The task that `CompleteExecution` leaves, whether the save went through or not: it is there, it
-- still runs, and its execution is complete since the given time.
pub record Completed (at : ℕ) (owner id : Text) (s : Store) : Type 0 where
  pub task : Task
  pub found : find_task_locked s.index owner id ≡ some task
  pub complete : task.execution_completed_at ≡ at
  pub active : task.state ≡ running

saved-Completed :
    (w : World) (extra : Extra) (owner id : Text) (change : Task → Fallible Error Task) (at : ℕ)
    (s : Store) (t : Task) {s' : Store} {new : Task}
    → trim_space owner ≡ owner
    → trim_space id ≡ id
    → find_task_locked s.index owner id ≡ some t
    → t.state ≡ running
    → ((t : Task)
        → (x : Task) × (change t ≡ ok x)
          × (x.execution_completed_at ≡ at)
          × (x.id ≡ t.id)
          × (x.state ≡ t.state))
    → update_task_locked w extra owner id change s ≡ (s', ok new)
    → Completed at owner id s'
unfolding find find_task_locked
saved-Completed w extra owner id change at s t {s'} {new} trimmed trimmed_id is_t runs changes h =
    let (tasks, old, located, changed, index) = update_task_locked-ok w extra owner id change s h in
    let (there, found) = locate-ok s.index owner id located in
    let (x, is_x, completed, same_id, same_state) = changes old in
    let first : find s.index owner id ≡ some old = locate-find s.index owner id located in
    let same : x ≡ new = ground arith in
    record {
      task = new;
      found = ground (
        arith,
        same,
        trimmed,
        trimmed_id,
        text_eq_refl owner,
        text_eq_refl id,
        find-with_tasks owner id owner id new old tasks s s' there found (ground arith) index,
      );
      complete = ground arith;
      active = ground (arith, same, same_state, first, is_t, runs, trimmed, trimmed_id);
    }

-- After `CompleteExecution` of a running request, with a reply within the limit and names that are
-- trimmed, the request still runs and its execution is complete since the call's time (never
-- before the start), whether SQLite took the checkpoint or refused it.
pub complete_execution-Completed :
    (w : World) (owner id reply : Text) (s : Store) (t : Task)
    → trim_space owner ≡ owner
    → trim_space id ≡ id
    → find_task_locked s.index owner id ≡ some t
    → t.state ≡ running
    → len reply ≤ max_result_reply_bytes
    → Completed (max w.now t.started_at) owner id (complete_execution w owner id reply s).0
unfolding complete_execution find_task_locked
complete_execution-Completed w owner id reply s t trimmed trimmed_id found active fits =
    let at : ℕ = max w.now t.started_at in
    let completed : Task = complete_at at reply stage_result_pending t in
    let change : Task → Fallible Error Task =
      λ x. ok (complete_at at reply (text "执行完成，正在保存结果") x) in
    let extra : Extra = put_completion id (record { version = 1; reply = reply; at = at }) in
    let s' : Store = (update_task_locked w extra owner id change s).0 in
    let left : Store = with_tasks owner (overwrite id completed (tasks_of owner s'.index)) s' in
    let running_there : state_eq t.state running ≡ true = ground arith in
    elim (Fallible-cases (update_task_locked w extra owner id change s).1) [
      | inl (x, done) ↦
          let here : Completed at owner id s' =
            saved-Completed w extra owner id change at s t {s' = s'} {new = x} trimmed trimmed_id
              found active
              (λ y. (complete_at at reply (text "执行完成，正在保存结果") y, refl, refl, refl, refl))
              (ground arith) in
          subst (λ (z : Store). Completed at owner id z) (ground arith) here
      | inr (e, bad) ↦
          let same : s' ≡ s =
            update_task_locked-atomic w extra owner id change s {s' = s'} {e = e} (ground arith) in
          let kept : Completed at owner id left = record {
            task = completed;
            found = ground (
              arith,
              same,
              lookup-insert_self owner (overwrite id completed (tasks_of owner s'.index))
                  s'.index.owners,
              find_task-id id (tasks_of owner s'.index) {t = t},
              find_task-overwrite id completed (tasks_of owner s'.index) {t = t},
            );
            complete = refl;
            active = active;
          } in
          subst (λ (z : Store). Completed at owner id z) (ground arith) kept
    ]

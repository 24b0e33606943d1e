-- ===== src/Request/Lifecycle.antt =====
-- core/request/lifecycle.go: the transitions of a task, and the updates of a running one.
pub mod Commit
pub mod Transition
pub mod Effect
pub mod Validity
pub mod Progress
pub mod Update
use codex_link_clawbot.Prelude.{
  ltb, max, if◌then◌else◌, ◌>>=◌, ◌>>◌, reject_if, Fallible, ok, err, ℕ, ◌+◌, Bool, false, ◌&&◌,
  ◌||◌, not, none, some, List, [],
}
use codex_link_clawbot.Text.{
  Text, text, text_eq, is_empty, trim_space, is_reason, valid_single_line,
}
use codex_link_clawbot.Map.{lookup, insert}
use codex_link_clawbot.Request.Types.{
  state_eq, terminal, payload_retention, reason_result_freeze_failed, State, running, delivering,
  succeeded, failed, interrupted, cancelled, Task, Index, Error, task_not_found, invalid_state,
  invalid_reason, invalid_stage, invalid_thread, thread_fixed, not_running, not_active,
  completed_not_cancellable, transition_refused, turn_fixed,
}
use codex_link_clawbot.Request.Index.{find_task, replace_task, find}
use codex_link_clawbot.Request.Storage.{Extra, no_extra, save_locked, Store, World}

-- `allowedTransition`
unfoldable pub allowed_transition : State → State → Bool
unfolding state_eq
allowed_transition running next =
    state_eq next delivering
    || state_eq next failed
    || state_eq next interrupted
    || state_eq next cancelled
allowed_transition delivering next =
    state_eq next succeeded || state_eq next failed || state_eq next interrupted
allowed_transition _ next = false

-- `terminalStage`
unfoldable pub terminal_stage : State → Text
unfolding text
terminal_stage succeeded = text "已完成"
terminal_stage failed = text "执行失败，等待处理"
terminal_stage interrupted = text "任务中断，等待处理"
terminal_stage cancelled = text "已取消"
terminal_stage _ = text "状态异常"

abbrev pub stage_result_pending : Text
stage_result_pending = text "执行完成，结果待保存"

-- What a transition writes: the state, the stage line and the reason.
pub record Settled : Type 0 where
  pub state : State
  pub stage : Text
  pub reason : Text

-- An execution that is complete ends as a success, whatever becomes of its delivery.
unfoldable pub settle : Task → State → Text → Text → Fallible Error Settled
unfolding state_eq terminal
settle current next stage reason =
    if ltb 0 current.execution_completed_at && terminal next
    then if state_eq next cancelled
      then err completed_not_cancellable
      else ok (
          if current.archive_failed
          then (record {
            state = succeeded;
            stage = stage_result_pending;
            reason = reason_result_freeze_failed;
          })
          else (record { state = succeeded; stage = terminal_stage succeeded; reason = [] }))
    else ok (record { state = next; stage = stage; reason = reason })

unfoldable pub may_move : Task → State → Bool
unfolding allowed_transition state_eq
may_move current next =
    allowed_transition current.state next
    || (state_eq current.state running
        && state_eq next succeeded
        && ltb 0 current.execution_completed_at)

-- The writes of `transitionLocked` on the task itself.
unfoldable pub enter : ℕ → Settled → Task → Task
unfolding terminal
enter now to t =
    let moved = record t { state = to.state; stage = to.stage; reason = to.reason } in
    let finished = max (max now t.started_at) t.created_at in
    if terminal to.state
    then (record moved {
      finished_at = finished;
      payload_expires_at = finished + payload_retention;
    })
    else moved

abbrev pub with_tasks : Text → List Task → Store → Store
with_tasks owner tasks s = record s {
  index = record (s.index) { owners = insert owner tasks s.index.owners };
}

-- A change of one owner's tasks, the save, and the old tasks again when the save fails.
unfoldable pub commit_tasks :
    {A : Type 0}
    → Bool
    → Extra
    → Text
    → List Task
    → List Task
    → A
    → Store
    → Store × Fallible Error A
commit_tasks commit extra owner previous tasks result s =
    let changed = with_tasks owner tasks s in
    elim (save_locked commit extra changed) [
      | ok saved ↦ (saved, ok result)
      | err e ↦ (with_tasks owner previous changed, err e)
    ]

-- The tasks of the trimmed owner, with the one of the trimmed id.
unfoldable pub locate : Index → Text → Text → Fallible Error (List Task × Task)
unfolding find_task
locate i owner id = elim (lookup (trim_space owner) i.owners) [
  | none ↦ err task_not_found
  | some tasks ↦ elim (find_task (trim_space id) tasks) [
    | none ↦ err task_not_found
    | some t ↦ ok (tasks, t)
  ]
]

abbrev pub or_fail :
    {E A B : Type 0} → Store → Fallible E A → (A → Store × Fallible E B) → Store × Fallible E B
or_fail s (ok a) f = f a
or_fail s (err e) f = (s, err e)

-- `transitionLocked`
unfoldable pub transition_locked :
    World → Extra → Text → Text → State → Text → Text → Store → Store × Fallible Error Task
unfolding locate settle may_move enter commit_tasks
transition_locked w extra owner id next stage reason s =
    or_fail s (locate s.index owner id) λ found. or_fail s (settle found.1 next stage reason) λ to.
      if may_move found.1 to.state
      then commit_tasks w.commit extra (trim_space owner) found.0
          (replace_task found.1.id (enter w.now to found.1) found.0) (enter w.now to found.1) s
      else (s, err transition_refused)

-- `updateTaskLocked`, and `updateTask` under the lock.
unfoldable pub update_task_locked :
    World → Extra → Text → Text → (Task → Fallible Error Task) → Store → Store × Fallible Error Task
unfolding locate commit_tasks
update_task_locked w extra owner id change s = or_fail s (locate s.index owner id) λ found.
    or_fail s (change found.1) λ t.
      commit_tasks w.commit extra (trim_space owner) found.0 (replace_task found.1.id t found.0) t s

-- `UpdateStage`
unfoldable pub set_stage : Text → Task → Fallible Error Task
set_stage stage t =
    if state_eq t.state running || state_eq t.state delivering
    then ok (record t { stage = stage })
    else err not_active

unfoldable pub update_stage : World → Text → Text → Text → Store → Store × Fallible Error Task
unfolding update_task_locked set_stage
update_stage w owner id stage s =
    if valid_single_line (trim_space stage) 120
    then update_task_locked w no_extra owner id (set_stage (trim_space stage)) s
    else (s, err invalid_stage)

-- `AttachThread`
unfoldable pub set_thread : Text → Task → Fallible Error Task
set_thread thread t = do
  reject_if (not (state_eq t.state running)) not_running
  reject_if (not (is_empty t.thread_id) && not (text_eq t.thread_id thread)) thread_fixed
  ok (record t { thread_id = thread })

unfoldable pub attach_thread : World → Text → Text → Text → Store → Store × Fallible Error Task
unfolding update_task_locked set_thread
attach_thread w owner id thread s =
    if valid_single_line (trim_space thread) 512
    then update_task_locked w no_extra owner id (set_thread (trim_space thread)) s
    else (s, err invalid_thread)

-- `AttachUsage`
unfoldable pub set_usage : ℕ → ℕ → ℕ → Task → Fallible Error Task
set_usage input output total t =
    if state_eq t.state running || state_eq t.state delivering
    then ok (record t { input_tokens = input; output_tokens = output; total_tokens = total })
    else err not_active

unfoldable pub attach_usage : World → Text → Text → ℕ → ℕ → ℕ → Store → Store × Fallible Error Task
unfolding update_task_locked set_usage
attach_usage w owner id input output total s =
    update_task_locked w no_extra owner id (set_usage input output total) s

-- `AttachTurn`
unfoldable pub set_turn : Text → Task → Fallible Error Task
set_turn turn t =
    if text_eq t.turn_id turn
    then ok t
    else if not (is_empty t.turn_id) || not (valid_single_line turn 512)
    then err turn_fixed
    else ok (record t { turn_id = turn })

unfoldable pub attach_turn : World → Text → Text → Text → Store → Store × Fallible Error Task
unfolding update_task_locked set_turn find
attach_turn w owner id turn s =
    let attach = update_task_locked w no_extra owner id (set_turn turn) s in
    elim (find s.index owner id) [
      | none ↦ attach
      | some t ↦ if text_eq t.turn_id turn then (s, ok t) else attach
    ]

-- `Finish`
unfoldable pub finish : World → Text → Text → State → Text → Store → Store × Fallible Error Task
unfolding transition_locked terminal
finish w owner id state reason s =
    if not (terminal state)
    then (s, err invalid_state)
    else if not (is_empty reason) && not (is_reason reason)
    then (s, err invalid_reason)
    else transition_locked w no_extra owner id state (terminal_stage state) reason s

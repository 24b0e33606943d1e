-- ===== src/Activity.antt =====
-- core/execution/activity.go: what is shown of a conversation. Codex answers from outside.
use codex_link_clawbot.Prelude.{
  ◌==◌, if◌then◌else◌, Bool, true, false, ◌&&◌, ◌||◌, not, Option, none, some, [],
}
use codex_link_clawbot.Text.{Text, text, text_eq, is_empty}
use codex_link_clawbot.Request.Types.{state_eq, running, Index}
use codex_link_clawbot.Request.Index.{active_task}
pub mod Busy

-- `Activity`
pub record Activity : Type 0 where
  pub target_id : Text
  pub thread_id : Text
  pub task_id : Text
  pub turn_id : Text
  pub stage : Text
  pub busy : Bool
  pub can_interrupt : Bool

-- The answers of Codex: the status of a thread, and the active turn where that can be asked for.
pub record CodexStatus : Type 0 where
  pub read_status : Text → Option Text
  pub has_control : Bool
  pub active_turn : Text → Option Text

-- `CatalogActivity`, on the status of the thread.
unfoldable pub catalog_activity : Index → Text → Text → Text → Text → Activity
unfolding active_task state_eq is_empty text_eq text
catalog_activity i owner target thread status =
    let idle : Activity = record {
      target_id = target;
      thread_id = thread;
      task_id = [];
      turn_id = [];
      stage = text "空闲，可发送工作内容";
      busy = false;
      can_interrupt = false;
    } in
    elim (active_task i owner target thread) [
      | some t ↦ (record idle {
        busy = true;
        stage = t.stage;
        task_id = t.id;
        thread_id = if is_empty t.thread_id then thread else t.thread_id;
        can_interrupt = state_eq t.state running && t.execution_completed_at == 0;
      })
      | none ↦
          if text_eq status (text "active")
          then (record idle { busy = true; stage = text "会话正在执行" })
          else idle
    ]

-- The turn of a busy thread, where Codex can be asked for it.
abbrev pub with_turn : CodexStatus → Text → Activity → Activity × Bool
with_turn codex thread a =
    let asked : Activity × Bool = elim (codex.active_turn thread) [
      | none ↦ ((record a { turn_id = []; can_interrupt = false }), false)
      | some turn ↦ ((record a { turn_id = turn; can_interrupt = not (is_empty turn) }), true)
    ] in
    if a.busy && codex.has_control then asked else (a, true)

-- `ReadActivity`, and whether it ends without an error; the store may have changed when Codex has
-- answered.
unfoldable pub read_activity : CodexStatus → Text → Text → Text → Index → Index → Activity × Bool
unfolding catalog_activity is_empty text
read_activity codex owner target thread i later =
    let first = catalog_activity i owner target thread [] in
    if not (is_empty first.task_id) || is_empty thread
    then (first, true)
    else elim (codex.read_status thread) [
      | none ↦ ((record first { busy = true; stage = text "状态暂不可用，请刷新" }), false)
      | some status ↦ with_turn codex thread (catalog_activity later owner target thread status)
    ]

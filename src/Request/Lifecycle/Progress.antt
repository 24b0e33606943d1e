-- ===== src/Request/Lifecycle/Progress.antt =====
-- core/request/lifecycle.go: a transition that the diagram allows.
use codex_link_clawbot.Prelude.{passes, ok, ℕ, ◌≡◌, true, List, arith}
use codex_link_clawbot.Text.{Text, trim_space}
use codex_link_clawbot.Map.{insert}
use codex_link_clawbot.Request.Types.{State, Task}
use codex_link_clawbot.Request.Index.{is_active, validate_index, replace_task}
use codex_link_clawbot.Request.Index.Lookup.{find_task-id}
use codex_link_clawbot.Request.Index.Follow.{
  AllFollow-replace_task, OwnersFollow-insert, validate_index-OwnersFollow, Follows,
}
use codex_link_clawbot.Request.Storage.{no_extra, save_locked, Store, World}
use codex_link_clawbot.Request.Lifecycle.{
  settle, may_move, enter, with_tasks, commit_tasks, locate, transition_locked, Settled,
}
use codex_link_clawbot.Request.Lifecycle.Transition.{settle-may_move, locate-ok, StateStep}
use codex_link_clawbot.Request.Lifecycle.Validity.{
  validate_task-TaskIsValid, TaskIsValid-validate_task, settle-lines, StateStep-cases,
  enter-TaskIsValid, LinesAreValid,
}

enter-Follows :
    (now : ℕ) (t : Task) (owner : Text) (to : Settled)
    → StateStep t t.state to.state
    → LinesAreValid to.stage to.reason
    → Follows owner (enter now to t) t
unfolding enter is_active
enter-Follows now t owner to st lines = record {
  same_id = ground arith;
  same_source = ground arith;
  same_session = ground arith;
  activity = ground (arith, StateStep-cases t st);
  validity = λ valid.
      TaskIsValid-validate_task (enter now to t) owner
        (enter-TaskIsValid now t owner to (validate_task-TaskIsValid t owner valid) st lines);
}

save_locked-ok :
    (s : Store) → validate_index s.index ≡ ok tt → passes (save_locked true no_extra s) ≡ true
unfolding save_locked
save_locked-ok s h = ground arith

commit_tasks-passes :
    {A : Type 0} (owner : Text) (previous tasks : List Task) (result : A) (s : Store)
    → validate_index (with_tasks owner tasks s).index ≡ ok tt
    → (commit_tasks true no_extra owner previous tasks result s).1 ≡ ok result
unfolding commit_tasks
commit_tasks-passes owner previous tasks result s h =
    ground (arith, save_locked-ok (with_tasks owner tasks s) h)

-- On a valid index, a transition of a task that is there, that settles and that the table of moves
-- allows, and whose lines are valid, ends well whenever SQLite commits: the validation before the
-- save never refuses it.
pub transition_locked-total :
    (w : World) (owner id : Text) (next : State) (stage reason : Text) (s : Store)
    (tasks : List Task) (t : Task) (to : Settled)
    → w.commit ≡ true
    → validate_index s.index ≡ ok tt
    → locate s.index owner id ≡ ok (tasks, t)
    → settle t next stage reason ≡ ok to
    → may_move t to.state ≡ true
    → LinesAreValid stage reason
    → (transition_locked w no_extra owner id next stage reason s).1 ≡ ok (enter w.now to t)
unfolding transition_locked
transition_locked-total w owner id next stage reason s tasks t to committed valid found done good
      lines =
    let st = settle-may_move t next stage reason done good in
    let there = locate-ok s.index owner id found in
    let follows =
      AllFollow-replace_task (trim_space owner) t.id (enter w.now to t) t tasks
        (ground (arith, there.1, find_task-id (trim_space id) tasks there.1))
        (enter-Follows w.now t (trim_space owner) to st
          (settle-lines t next stage reason done lines)) in
    let again =
      validate_index-OwnersFollow s.index
        (insert (trim_space owner) (replace_task t.id (enter w.now to t) tasks) s.index.owners)
        (OwnersFollow-insert (trim_space owner) (replace_task t.id (enter w.now to t) tasks) tasks
          s.index.owners there.0 follows)
        valid in
    ground (
      arith,
      commit_tasks-passes (trim_space owner) tasks (replace_task t.id (enter w.now to t) tasks)
          (enter w.now to t) s again,
    )

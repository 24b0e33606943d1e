-- ===== src/Request/Lifecycle/Update.antt =====
-- core/request/lifecycle.go: an update or a transition of a task, seen by the lookups.
use codex_link_clawbot.Prelude.{
  if◌then◌else◌, Fallible-cases, Fallible, ok, err, ◌≡◌, inl, inr, false, ◌&&◌, some, List, arith,
}
use codex_link_clawbot.Text.{Text, text_eq, text_eq_iff, text_eq_refl, is_empty, trim_space}
use codex_link_clawbot.Request.Types.{State, Task, Error}
use codex_link_clawbot.Request.Index.{replace_task, find}
use codex_link_clawbot.Request.Storage.{Extra, no_extra, Store, World}
use codex_link_clawbot.Request.Lifecycle.{
  enter, with_tasks, commit_tasks, locate, transition_locked, update_task_locked, set_thread,
  attach_thread,
}
use codex_link_clawbot.Request.Lifecycle.Commit.{
  save_locked-index, commit_tasks-ok, commit_tasks-err,
}
use codex_link_clawbot.Request.Lifecycle.Effect.{find-with_tasks}
use codex_link_clawbot.Request.Lifecycle.Transition.{
  locate-ok, transition_locked-Moved, locate-find,
}

-- What an update leaves when it ends well.
pub update_task_locked-ok :
    (w : World) (extra : Extra) (owner id : Text) (change : Task → Fallible Error Task) (s : Store)
    {s' : Store} {new : Task}
    → update_task_locked w extra owner id change s ≡ (s', ok new)
    → (tasks : List Task) × (old : Task) × (locate s.index owner id ≡ ok (tasks, old))
      × (change old ≡ ok new)
      × (s'.index ≡ (with_tasks (trim_space owner) (replace_task old.id new tasks) s).index)
unfolding update_task_locked
update_task_locked-ok w extra owner id change s {s'} {new} h =
    elim (Fallible-cases (locate s.index owner id)) [
      | inr (e, bad) ↦ absurd (ground arith)
      | inl ((tasks, old), located) ↦ elim (Fallible-cases (change old)) [
        | inr (e, bad) ↦ absurd (ground arith)
        | inl (t, changed) ↦
            let next : List Task = replace_task old.id t tasks in
            let done : commit_tasks w.commit extra (trim_space owner) tasks next t s
                ≡ (s', ok new) =
              ground arith in
            let (saved, same) =
              commit_tasks-ok w.commit extra (trim_space owner) tasks next t s done in
            (
              tasks,
              old,
              located,
              ground arith,
              ground (
                arith,
                same,
                save_locked-index w.commit extra (with_tasks (trim_space owner) next s) saved,
              ),
            )
      ]
    ]

-- An update of a task that fails, for whatever reason, leaves the store as it was.
pub update_task_locked-atomic :
    (w : World) (extra : Extra) (owner id : Text) (change : Task → Fallible Error Task) (s : Store)
    {s' : Store} {e : Error}
    → update_task_locked w extra owner id change s ≡ (s', err e)
    → s' ≡ s
unfolding update_task_locked
update_task_locked-atomic w extra owner id change s {s'} {e} h =
    elim (Fallible-cases (locate s.index owner id)) [
      | inr (x, bad) ↦ ground arith
      | inl ((tasks, old), located) ↦ elim (Fallible-cases (change old)) [
        | inr (x, bad) ↦ ground arith
        | inl (t, changed) ↦
            commit_tasks-err w.commit extra (trim_space owner) tasks (replace_task old.id t tasks) t
              s {e = e} (locate-ok s.index owner id located).0 (ground arith)
      ]
    ]

set_thread-fixed :
    (thread : Text) (t : Task) {new : Task}
    → is_empty t.thread_id ≡ false
    → set_thread thread t ≡ ok new
    → new.thread_id ≡ t.thread_id
unfolding set_thread
set_thread-fixed thread t {new} h done = ground (arith, text_eq_iff t.thread_id thread)

-- A thread is attached once: on a task that has one already, an attach that ends well leaves the
-- thread that the task had, under which every later lookup of it answers.
pub attach_thread-fixed :
    (w : World) (owner id thread : Text) (s : Store) {s' : Store} {old new : Task}
    → find s.index owner id ≡ some old
    → is_empty old.thread_id ≡ false
    → attach_thread w owner id thread s ≡ (s', ok new)
    → (find s'.index owner id ≡ some new) × (new.thread_id ≡ old.thread_id)
unfolding attach_thread set_thread
attach_thread-fixed w owner id thread s {s'} {old} {new} found fixed h =
    let done : update_task_locked w no_extra owner id (set_thread (trim_space thread)) s
        ≡ (s', ok new) =
      ground arith in
    let (tasks, t, located, changed, index) =
      update_task_locked-ok w no_extra owner id (set_thread (trim_space thread)) s done in
    let same : old ≡ t = ground (arith, locate-find s.index owner id located) in
    let kept : new.thread_id ≡ t.thread_id =
      set_thread-fixed (trim_space thread) t (ground arith) changed in
    let (there, at) = locate-ok s.index owner id located in
    (
      ground (
        arith,
        text_eq_refl (trim_space owner),
        text_eq_refl (trim_space id),
        find-with_tasks owner id owner id new t tasks s s' there at (ground arith) index,
      ),
      ground arith,
    )

-- After a transition that ends well the lookup of the transition's own owner and id answers the
-- task that it returned, and every other lookup answers as before.
pub transition_locked-find :
    (w : World) (extra : Extra) (owner id : Text) (next : State) (stage reason : Text) (s : Store)
    (owner' id' : Text) {s' : Store} {new : Task}
    → transition_locked w extra owner id next stage reason s ≡ (s', ok new)
    → find s'.index owner' id' ≡ (
        if text_eq (trim_space owner) (trim_space owner')
          && text_eq (trim_space id) (trim_space id')
        then some new
        else find s.index owner' id')
unfolding enter
transition_locked-find w extra owner id next stage reason s owner' id' {s'} {new} h =
    let m = transition_locked-Moved w extra owner id next stage reason s h in
    let entered : Task = enter w.now m.to m.old in
    let written : Store = with_tasks (trim_space owner) (replace_task m.old.id entered m.tasks) s in
    let (there, at) = locate-ok s.index owner id m.located in
    let same_id : entered.id ≡ m.old.id = ground arith in
    ground (
      arith,
      m.entered,
      find-with_tasks owner id owner' id' entered m.old m.tasks s s' there at same_id
          (save_locked-index w.commit extra written m.saved),
    )

-- ===== src/Request/Lifecycle/Transition.antt =====
-- core/request/lifecycle.go: what a transition does to a task.
use codex_link_clawbot.Prelude.{
  Bool-cases, Fallible-cases, ok, err, ℕ, ◌<◌, ◌≡◌, refl, ◌⊎◌, inl, inr, true, false, some, List,
  arith,
}
use codex_link_clawbot.Text.{Text, trim_space}
use codex_link_clawbot.Map.{lookup}
use codex_link_clawbot.Request.Types.{
  terminal, State, running, delivering, succeeded, failed, interrupted, cancelled, Task, Index,
  Error,
}
use codex_link_clawbot.Request.Index.{find_task, replace_task, find_task_locked, find}
use codex_link_clawbot.Request.Storage.{Extra, save_locked, Store, World}
use codex_link_clawbot.Request.Lifecycle.{
  settle, may_move, enter, with_tasks, locate, transition_locked, Settled,
}
use codex_link_clawbot.Request.Lifecycle.Commit.{commit_tasks-ok, commit_tasks-err}

abbrev pub IsComplete : Task → Type 0
IsComplete t = 0 < t.execution_completed_at

-- The moves of a task, read off the states that the store names: a running request is delivered,
-- and an active one ends; one whose execution is complete ends as a success only.
pub data StateStep (t : Task) : State → State → Type 0 where
  deliver : StateStep t running delivering
  give_up :
      {s : State}
      → t.execution_completed_at ≡ 0
      → s ≡ running ⊎ s ≡ delivering
      → StateStep t s failed
  stop :
      {s : State}
      → t.execution_completed_at ≡ 0
      → s ≡ running ⊎ s ≡ delivering
      → StateStep t s interrupted
  cancel : t.execution_completed_at ≡ 0 → StateStep t running cancelled
  hand_over : StateStep t delivering succeeded
  complete : IsComplete t → StateStep t running succeeded

ruleset moves = (deliver, give_up, stop, cancel, hand_over, complete)

pub settle-may_move :
    (t : Task) (next : State) (stage reason : Text) {to : Settled}
    → settle t next stage reason ≡ ok to
    → may_move t to.state ≡ true
    → StateStep t t.state to.state
unfolding settle may_move
settle-may_move t next stage reason h m = grind (arith, moves)

pub locate-ok :
    (i : Index) (owner id : Text) {found : List Task × Task}
    → locate i owner id ≡ ok found
    → (lookup (trim_space owner) i.owners ≡ some found.0)
      × (find_task (trim_space id) found.0 ≡ some found.1)
unfolding locate
locate-ok i owner id h = ground arith

-- The parts of a transition that ended well.
pub record Moved (w : World) (extra : Extra) (owner id : Text) (next : State) (stage reason : Text)
    (s s' : Store) (t' : Task) : Type 0 where
  pub tasks : List Task
  pub old : Task
  pub to : Settled
  pub located : locate s.index owner id ≡ ok (tasks, old)
  pub settled : settle old next stage reason ≡ ok to
  pub allowed : may_move old to.state ≡ true
  pub entered : t' ≡ enter w.now to old
  pub saved :
      save_locked w.commit extra
        (with_tasks (trim_space owner) (replace_task old.id (enter w.now to old) tasks) s)
      ≡ ok s'

pub transition_locked-Moved :
    (w : World) (extra : Extra) (owner id : Text) (next : State) (stage reason : Text) (s : Store)
    {s' : Store} {t' : Task}
    → transition_locked w extra owner id next stage reason s ≡ (s', ok t')
    → Moved w extra owner id next stage reason s s' t'
unfolding transition_locked
transition_locked-Moved w extra owner id next stage reason s {s'} {t'} h =
    elim (Fallible-cases (locate s.index owner id)) [
      | inr (e, bad) ↦ absurd (ground arith)
      | inl ((tasks, old), found) ↦ elim (Fallible-cases (settle old next stage reason)) [
        | inr (e, bad) ↦ absurd (ground arith)
        | inl (to, done) ↦ elim (Bool-cases (may_move old to.state)) [
          | inr bad ↦ absurd (ground arith)
          | inl good ↦
              let committed =
                commit_tasks-ok w.commit extra (trim_space owner) tasks
                  (replace_task old.id (enter w.now to old) tasks) (enter w.now to old) s {s' = s'}
                  {a = t'} (ground arith) in
              record {
                tasks = tasks;
                old = old;
                to = to;
                located = found;
                settled = done;
                allowed = good;
                entered = committed.1;
                saved = committed.0;
              }
        ]
      ]
    ]

-- A transition that fails leaves the store as it was.
pub transition_locked-atomic :
    (w : World) (extra : Extra) (owner id : Text) (next : State) (stage reason : Text) (s : Store)
    {s' : Store} {e : Error}
    → transition_locked w extra owner id next stage reason s ≡ (s', err e)
    → s' ≡ s
unfolding transition_locked
transition_locked-atomic w extra owner id next stage reason s {s'} {e} h =
    elim (Fallible-cases (locate s.index owner id)) [
      | inr (e, bad) ↦ ground arith
      | inl ((tasks, old), found) ↦ elim (Fallible-cases (settle old next stage reason)) [
        | inr (e, bad) ↦ ground arith
        | inl (to, done) ↦ elim (Bool-cases (may_move old to.state)) [
          | inr bad ↦ ground arith
          | inl good ↦
              commit_tasks-err w.commit extra (trim_space owner) tasks
                (replace_task old.id (enter w.now to old) tasks) (enter w.now to old) s {s' = s'}
                {e = e} (locate-ok s.index owner id found).0 (ground arith)
        ]
      ]
    ]

pub enter-state : (now : ℕ) (to : Settled) (t : Task) → (enter now to t).state ≡ to.state
unfolding enter
enter-state now to t = ground arith

pub locate-find :
    (i : Index) (owner id : Text) {found : List Task × Task}
    → locate i owner id ≡ ok found
    → find i owner id ≡ some found.1
unfolding locate find find_task_locked
locate-find i owner id h = ground arith

-- A transition that ends well moves the state of the task along the diagram, from the state in
-- which the lookup by owner and id finds it.
pub transition_locked-StateStep :
    (w : World) (extra : Extra) (owner id : Text) (next : State) (stage reason : Text) (s : Store)
    {s' : Store} {t' : Task}
    → transition_locked w extra owner id next stage reason s ≡ (s', ok t')
    → (t : Task) × (find s.index owner id ≡ some t) × StateStep t t.state t'.state
transition_locked-StateStep w extra owner id next stage reason s h =
    let m = transition_locked-Moved w extra owner id next stage reason s h in
    (
      m.old,
      locate-find s.index owner id m.located,
      rw (m.entered, enter-state w.now m.to m.old)
          (settle-may_move m.old next stage reason m.settled m.allowed),
    )

StateStep-terminal : (t : Task) {a b : State} → StateStep t a b → terminal a ≡ false
unfolding terminal
StateStep-terminal t deliver = refl
StateStep-terminal t (give_up c at) = ground arith
StateStep-terminal t (stop c at) = ground arith
StateStep-terminal t (cancel c) = refl
StateStep-terminal t hand_over = refl
StateStep-terminal t (complete c) = refl

StateStep-complete :
    (t : Task) {a b : State} → StateStep t a b → IsComplete t → (b ≡ delivering) ⊎ (b ≡ succeeded)
StateStep-complete t deliver c = inl refl
StateStep-complete t (give_up z at) c = absurd (omega arith)
StateStep-complete t (stop z at) c = absurd (omega arith)
StateStep-complete t (cancel z) c = absurd (omega arith)
StateStep-complete t hand_over c = inr refl
StateStep-complete t (complete z) c = inr refl

-- A request that has ended never moves again: each transition of it fails, and the store stays as
-- it was.
pub transition_locked-terminal :
    (w : World) (extra : Extra) (owner id : Text) (next : State) (stage reason : Text) (s : Store)
    (t : Task)
    → find s.index owner id ≡ some t
    → terminal t.state ≡ true
    → (e : Error) × (transition_locked w extra owner id next stage reason s ≡ (s, err e))
transition_locked-terminal w extra owner id next stage reason s t found ended =
    elim (Fallible-cases (transition_locked w extra owner id next stage reason s).1) [
      | inl (t', good) ↦
          let st =
            transition_locked-StateStep w extra owner id next stage reason s
              {s' = (transition_locked w extra owner id next stage reason s).0} {t' = t'}
              (ground arith) in
          absurd (ground (arith, StateStep-terminal st.0 st.2))
      | inr (e, bad) ↦ (
        e,
        ground (
          arith,
          transition_locked-atomic w extra owner id next stage reason s
              {s' = (transition_locked w extra owner id next stage reason s).0} {e = e},
        ),
      )
    ]

enter-completed_at :
    (now : ℕ) (to : Settled) (t : Task)
    → (enter now to t).execution_completed_at ≡ t.execution_completed_at
unfolding enter
enter-completed_at now to t = ground arith

-- A transition that ends well, of a request whose execution is complete, keeps the completion time
-- and leaves the request delivering or succeeded, whatever state it asks for.
pub transition_locked_complete :
    (w : World) (extra : Extra) (owner id : Text) (next : State) (stage reason : Text) (s : Store)
    (t : Task) {s' : Store} {t' : Task}
    → find s.index owner id ≡ some t
    → IsComplete t
    → transition_locked w extra owner id next stage reason s ≡ (s', ok t')
    → ((t'.state ≡ delivering) ⊎ (t'.state ≡ succeeded))
      × (t'.execution_completed_at ≡ t.execution_completed_at)
transition_locked_complete w extra owner id next stage reason s t {s'} {t'} found c h =
    let m = transition_locked-Moved w extra owner id next stage reason s h in
    let same : m.old ≡ t = ground (arith, locate-find s.index owner id m.located) in
    let st = settle-may_move m.old next stage reason m.settled m.allowed in
    let completed : IsComplete m.old = ground (arith, same) in
    ground (
      arith,
      StateStep-complete m.old st completed,
      enter-state w.now m.to m.old,
      enter-completed_at w.now m.to m.old,
      m.entered,
      same,
    )

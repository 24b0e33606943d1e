-- ===== src/Runner/Kept.antt =====
-- core/execution/runner.go: an execution that is complete, through everything that comes after it.
use codex_link_clawbot.Prelude.{
  Bool-cases, Fallible-cases, Fallible, ok, ◌≡◌, sym, subst, ◌⊎◌, inl, inr, Bool, true, ◌&&◌, ◌||◌,
  not, some, [], arith,
}
use codex_link_clawbot.Text.{Text, text, text_eq_refl, is_empty, trim_space, is_reason}
use codex_link_clawbot.Request.Types.{
  state_eq, terminal, State, running, delivering, succeeded, Task, DeliveryReceipt, ResultArtifact,
  Result, Error,
}
use codex_link_clawbot.Request.Valid.{validate_result}
use codex_link_clawbot.Request.Index.{find}
use codex_link_clawbot.Request.Storage.{Extra, no_extra, Store, World}
use codex_link_clawbot.Request.Lifecycle.{
  terminal_stage, transition_locked, update_task_locked, finish,
}
use codex_link_clawbot.Request.Lifecycle.Transition.{
  IsComplete, locate-ok, transition_locked-atomic, locate-find, transition_locked_complete,
}
use codex_link_clawbot.Request.Lifecycle.Update.{
  update_task_locked-ok, update_task_locked-atomic, transition_locked-find,
}
use codex_link_clawbot.Request.Lifecycle.Effect.{find-with_tasks}
use codex_link_clawbot.Request.Delivery.{
  save_receipts, read_result, load_result, result_is_kept, set_frozen, save_result, build_result,
  freeze_result, begin_delivery, FreezeResultInput,
}
use codex_link_clawbot.Request.Receipts.{note_receipt, record_delivery}

-- The request is there, its execution is complete, and it is running, delivering or succeeded.
pub record IsKept (owner id : Text) (s : Store) : Type 0 where
  pub task : Task
  pub found : find s.index owner id ≡ some task
  pub complete : IsComplete task
  pub state : (task.state ≡ running) ⊎ ((task.state ≡ delivering) ⊎ (task.state ≡ succeeded))

pub moved-IsKept :
    {owner id : Text} {s s' : Store} → s' ≡ s → IsKept owner id s → IsKept owner id s'
moved-IsKept {owner} {id} same kept = subst (λ (x : Store). IsKept owner id x) (sym same) kept

transition_locked-IsKept :
    (w : World) (extra : Extra) (owner id : Text) (next : State) (stage reason : Text) (s : Store)
    → IsKept owner id s
    → IsKept owner id (transition_locked w extra owner id next stage reason s).0
transition_locked-IsKept w extra owner id next stage reason s kept =
    let s' : Store = (transition_locked w extra owner id next stage reason s).0 in
    elim (Fallible-cases (transition_locked w extra owner id next stage reason s).1) [
      | inr (e, bad) ↦
          let same : s' ≡ s =
            transition_locked-atomic w extra owner id next stage reason s {s' = s'} {e = e}
              (ground arith) in
          moved-IsKept same kept
      | inl (t', good) ↦
          let done : transition_locked w extra owner id next stage reason s ≡ (s', ok t') =
            ground arith in
          let (state, completed) =
            transition_locked_complete w extra owner id next stage reason s kept.task kept.found
              kept.complete done in
          record {
            task = t';
            found = ground (
              arith,
              transition_locked-find w extra owner id next stage reason s owner id done,
              text_eq_refl (trim_space owner),
              text_eq_refl (trim_space id),
            );
            complete = ground (arith, completed, kept.complete);
            state = inr state;
          }
    ]

pub finish-IsKept :
    (w : World) (owner id : Text) (next : State) (reason : Text) (s : Store)
    → IsKept owner id s
    → IsKept owner id (finish w owner id next reason s).0
unfolding finish
finish-IsKept w owner id next reason s kept = elim (Bool-cases (not (terminal next))) [
  | inl y ↦ rw y kept
  | inr n ↦ elim (Bool-cases (not (is_empty reason) && not (is_reason reason))) [
    | inl y ↦ rw n (rw y kept)
    | inr m ↦ rw n (
        rw m
          (transition_locked-IsKept w no_extra owner id next (terminal_stage next) reason s kept))
  ]
]

update_task_locked-IsKept :
    (w : World) (extra : Extra) (owner id : Text) (change : Task → Fallible Error Task) (s : Store)
    → ((t x : Task)
        → IsComplete t
        → change t ≡ ok x
        → IsComplete x × (x.id ≡ t.id) × (x.state ≡ t.state))
    → IsKept owner id s
    → IsKept owner id (update_task_locked w extra owner id change s).0
update_task_locked-IsKept w extra owner id change s keeps kept =
    let s' : Store = (update_task_locked w extra owner id change s).0 in
    elim (Fallible-cases (update_task_locked w extra owner id change s).1) [
      | inr (e, bad) ↦
          let same : s' ≡ s =
            update_task_locked-atomic w extra owner id change s {s' = s'} {e = e} (ground arith) in
          moved-IsKept same kept
      | inl (new, good) ↦
          let (tasks, old, located, changed, index) =
            update_task_locked-ok w extra owner id change s {s' = s'} {new = new} (ground arith) in
          let (there, at) = locate-ok s.index owner id located in
          let same : old ≡ kept.task =
            ground (arith, locate-find s.index owner id located, kept.found) in
          let was : IsComplete old = ground (arith, same, kept.complete) in
          let (is_complete, same_id, same_state) = keeps old new was changed in
          record {
            task = new;
            found = ground (
              arith,
              text_eq_refl (trim_space owner),
              text_eq_refl (trim_space id),
              find-with_tasks owner id owner id new old tasks s s' there at same_id index,
            );
            complete = is_complete;
            state = ground (arith, same, same_state, kept.state);
          }
    ]

set_frozen-keeps :
    (r : Result) (t x : Task)
    → IsComplete t
    → set_frozen r t ≡ ok x
    → IsComplete x × (x.id ≡ t.id) × (x.state ≡ t.state)
unfolding set_frozen
set_frozen-keeps r t x c h = (ground arith, ground arith, ground arith)

pub freeze_result-IsKept :
    (w : World) (freeze : Text → Fallible Error ResultArtifact) (owner id : Text)
    (input : FreezeResultInput) (s : Store)
    → IsKept owner id s
    → IsKept owner id (freeze_result w freeze owner id input s).0
unfolding freeze_result
freeze_result-IsKept w freeze owner id input s kept =
    let s' : Store = (freeze_result w freeze owner id input s).0 in
    elim (Fallible-cases (build_result w freeze kept.task input s)) [
      | inr (e, bad) ↦ let same : s' ≡ s = ground (arith, kept.found, bad) in moved-IsKept same kept
      | inl (r, built) ↦
          let written : Store =
            (update_task_locked w (save_result kept.task.id r) owner id (set_frozen r) s).0 in
          let after : IsKept owner id written =
            update_task_locked-IsKept w (save_result kept.task.id r) owner id (set_frozen r) s
              (set_frozen-keeps r) kept in
          let same : s' ≡ written =
            elim (Fallible-cases
              (update_task_locked w (save_result kept.task.id r) owner id (set_frozen r) s).1) [
                | inr (e, bad) ↦ ground (arith, kept.found, built, bad)
                | inl (x, done) ↦ ground (arith, kept.found, built, done)
              ] in
          moved-IsKept same after
    ]

pub begin_delivery-IsKept :
    (w : World) (owner id : Text) (s : Store)
    → IsKept owner id s
    → IsKept owner id (begin_delivery w owner id s).0
unfolding begin_delivery
begin_delivery-IsKept w owner id s kept =
    let s' : Store = (begin_delivery w owner id s).0 in
    let line : Text = text "正在发送结果" in
    let after = transition_locked-IsKept w no_extra owner id delivering line [] s kept in
    elim (Bool-cases (state_eq kept.task.state running)) [
      | inr idle ↦ let same : s' ≡ s = ground (arith, kept.found, idle) in moved-IsKept same kept
      | inl runs ↦ elim (Fallible-cases (load_result w s.tables kept.task)) [
        | inr (e, bad) ↦
            let same : s' ≡ s = ground (arith, kept.found, runs, bad) in moved-IsKept same kept
        | inl (r, good) ↦
            let same : s' ≡ (transition_locked w no_extra owner id delivering line [] s).0 =
              ground (arith, kept.found, runs, good) in
            moved-IsKept same after
      ]
    ]

-- The initial receipt either leaves the store, or moves the request.
pub record_delivery-IsKept :
    (w : World) (owner id : Text) (receipt : DeliveryReceipt) (s : Store)
    → IsKept owner id s
    → IsKept owner id (record_delivery w owner id receipt true s).0
unfolding record_delivery
record_delivery-IsKept w owner id receipt s kept =
    let s' : Store = (record_delivery w owner id receipt true s).0 in
    let t : Task = kept.task in
    let late : Bool = not (state_eq t.state delivering) || not (is_empty receipt.operation_id) in
    elim (Bool-cases (result_is_kept w.now t)) [
      | inr gone ↦ moved-IsKept (ground (arith, kept.found, gone)) kept
      | inl there ↦ elim (Bool-cases late) [
        | inl y ↦ moved-IsKept (ground (arith, kept.found, there, y)) kept
        | inr n ↦ elim (Fallible-cases (read_result w.lib s.tables t)) [
          | inr (e, bad) ↦ moved-IsKept (ground (arith, kept.found, there, n, bad)) kept
          | inl (r, is_r) ↦ elim (Fallible-cases (note_receipt w.lib receipt r)) [
            | inr (e, bad) ↦ moved-IsKept (ground (arith, kept.found, there, n, is_r, bad)) kept
            | inl (noted, is_noted) ↦ elim (Fallible-cases (validate_result w.lib noted t)) [
              | inr (e, bad) ↦
                  moved-IsKept (ground (arith, kept.found, there, n, is_r, is_noted, bad)) kept
              | inl (u, valid) ↦
                  let extra : Extra = save_receipts t.id noted in
                  let line : Text = terminal_stage succeeded in
                  let after : IsKept owner id
                      (transition_locked w extra owner id succeeded line [] s).0 =
                    transition_locked-IsKept w extra owner id succeeded line [] s kept in
                  let same : s' ≡ (transition_locked w extra owner id succeeded line [] s).0 =
                    elim (Fallible-cases
                      (transition_locked w extra owner id succeeded line [] s).1) [
                        | inr (e, bad) ↦
                            ground (arith, kept.found, there, n, is_r, is_noted, valid, bad)
                        | inl (x, done) ↦
                            ground (arith, kept.found, there, n, is_r, is_noted, valid, done)
                      ] in
                  moved-IsKept same after
            ]
          ]
        ]
      ]
    ]

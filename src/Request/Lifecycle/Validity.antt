-- ===== src/Request/Lifecycle/Validity.antt =====
-- core/request/lifecycle.go against model.go: the validation of a task after a transition.
use codex_link_clawbot.Prelude.{
  ◌==◌, ok, ℕ, ◌≡◌, refl, sym, subst, ◌⊎◌, inl, inr, true, false, [], arith,
}
use codex_link_clawbot.Text.{Text, text, is_empty, is_space, is_reason, valid_single_line}
use codex_link_clawbot.Request.Types.{
  state_eq, valid_state, terminal, reason_result_freeze_failed, State, running, delivering,
  succeeded, failed, interrupted, cancelled, Task,
}
use codex_link_clawbot.Request.Valid.{
  present_and_bad, bad_identity, bad_project, bad_display, bad_state, bad_target, bad_completion,
  inconsistent, bad_retention, bad_retry, bad_attachments, phase_error, validate_task,
}
use codex_link_clawbot.Request.Lifecycle.{
  terminal_stage, stage_result_pending, settle, enter, Settled,
}
use codex_link_clawbot.Request.Lifecycle.Transition.{
  enter-state, StateStep, deliver, give_up, stop, cancel, hand_over, complete,
}

-- The tests of `validateTask`, each passed.
pub record TaskIsValid (t : Task) (owner : Text) : Type 0 where
  pub identity : bad_identity t owner ≡ false
  pub project : bad_project t ≡ false
  pub display : bad_display t ≡ false
  pub in_state : bad_state t ≡ false
  pub target : bad_target t ≡ false
  pub completion : bad_completion t ≡ false
  pub consistent : inconsistent t ≡ false
  pub retention : bad_retention t ≡ false
  pub timestamps : (t.created_at == 0) ≡ false
  pub retry : bad_retry t ≡ false
  pub attachments : bad_attachments t ≡ false
  pub phase : phase_error t.state t ≡ false

pub validate_task-TaskIsValid :
    (t : Task) (owner : Text) → validate_task t owner ≡ ok tt → TaskIsValid t owner
unfolding validate_task
validate_task-TaskIsValid t owner h = ground arith

pub TaskIsValid-validate_task :
    (t : Task) (owner : Text) → TaskIsValid t owner → validate_task t owner ≡ ok tt
unfolding validate_task
TaskIsValid-validate_task t owner v = ground arith

-- A stage line and a reason that `validateTask` takes.
pub record LinesAreValid (stage reason : Text) : Type 0 where
  pub stage_line : valid_single_line stage 120 ≡ true
  pub reason_code : present_and_bad reason (is_reason reason) ≡ false

stage_pending-valid : LinesAreValid stage_result_pending reason_result_freeze_failed
unfolding valid_single_line is_reason text is_empty is_space
stage_pending-valid = record { stage_line = refl; reason_code = refl }

terminal_stage-valid : (s : State) → LinesAreValid (terminal_stage s) []
unfolding terminal_stage valid_single_line is_empty is_reason is_space
terminal_stage-valid (State.other t) = record { stage_line = refl; reason_code = refl }
terminal_stage-valid s = record { stage_line = refl; reason_code = refl }

pub settle-lines :
    (t : Task) (next : State) (stage reason : Text) {to : Settled}
    → settle t next stage reason ≡ ok to
    → LinesAreValid stage reason
    → LinesAreValid to.stage to.reason
unfolding settle
settle-lines t next stage reason h v =
    ground (arith, stage_pending-valid, terminal_stage-valid succeeded)

-- The diagram, read as equations of the two states.
pub StateStep-cases :
    (t : Task) {a b : State}
    → StateStep t a b
    → ((a ≡ running) × (b ≡ delivering))
      ⊎ (((a ≡ running) ⊎ (a ≡ delivering))
          × ((b ≡ succeeded)
              ⊎ ((t.execution_completed_at ≡ 0)
                  × ((b ≡ failed) ⊎ ((b ≡ interrupted) ⊎ (b ≡ cancelled))))))
StateStep-cases t deliver = inl (refl, refl)
StateStep-cases t (give_up z at) = inr (at, inr (z, inl refl))
StateStep-cases t (stop z at) = inr (at, inr (z, inr (inl refl)))
StateStep-cases t (cancel z) = inr (inl refl, inr (z, inr (inr refl)))
StateStep-cases t hand_over = inr (inr refl, inl refl)
StateStep-cases t (complete c) = inr (inl refl, inl refl)

-- The tests that read the state, the stage, the reason or the times of the end.
module _ (now : ℕ) (t : Task) (owner : Text) (to : Settled) (v : TaskIsValid t owner) where
  enter-display : LinesAreValid to.stage to.reason → bad_display (enter now to t) ≡ false
  unfolding bad_display enter
  enter-display l = ground (arith, v.display)

  enter-bad_state : StateStep t t.state to.state → bad_state (enter now to t) ≡ false
  unfolding bad_state enter valid_state
  enter-bad_state st = ground (arith, v.in_state, StateStep-cases t st)

  enter-inconsistent : StateStep t t.state to.state → inconsistent (enter now to t) ≡ false
  unfolding inconsistent enter state_eq terminal
  enter-inconsistent st = ground (arith, v.consistent, StateStep-cases t st)

  enter-phase : StateStep t t.state to.state → phase_error to.state (enter now to t) ≡ false
  unfolding phase_error enter terminal
  enter-phase st = ground (arith, v.phase, v.timestamps, StateStep-cases t st)

-- A valid task is valid after a transition that the diagram allows.
pub enter-TaskIsValid :
    (now : ℕ) (t : Task) (owner : Text) (to : Settled)
    → TaskIsValid t owner
    → StateStep t t.state to.state
    → LinesAreValid to.stage to.reason
    → TaskIsValid (enter now to t) owner
unfolding bad_identity bad_project bad_target bad_completion bad_retention bad_retry bad_attachments
    enter
enter-TaskIsValid now t owner to v st lines = record {
  identity = ground (arith, v.identity);
  project = ground (arith, v.project);
  display = enter-display now t owner to v lines;
  in_state = enter-bad_state now t owner to v st;
  target = ground (arith, v.target);
  completion = ground (arith, v.completion);
  consistent = enter-inconsistent now t owner to v st;
  retention = ground (arith, v.retention);
  timestamps = ground (arith, v.timestamps);
  retry = ground (arith, v.retry);
  attachments = ground (arith, v.attachments);
  phase =
      subst (λ x. phase_error x (enter now to t) ≡ false) (sym (enter-state now to t))
        (enter-phase now t owner to v st);
}

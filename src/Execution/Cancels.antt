-- ===== src/Execution/Cancels.antt =====
-- core/execution/coordinator.go: a cancel against the executor's end.
use codex_link_clawbot.Prelude.{
  ◌==◌, if◌then◌else◌, bool_eq, ℕ, ◌<◌, ◌≡◌, Bool, true, false, ◌&&◌, List, [], ◌∷◌,
}
use codex_link_clawbot.Text.{Text}
use codex_link_clawbot.Request.Types.{Index}
use codex_link_clawbot.Execution.{
  begin, launch, finalize, release_locked, release_admission, cancel_task, drain_coordinator,
  stop_coordinator, begin_effect, end_effect, Admission, Coordinator, Entrant,
}

-- The admission of a number is there, finalizing, with a cancel flag and a context.
unfoldable pub is_settled : ℕ → Bool → Bool → List Admission → Bool
is_settled n requested is_ended [] = false
is_settled n requested is_ended (a ∷ rest) =
    if a.number == n
    then a.finalizing
      && bool_eq a.cancel_requested requested
      && bool_eq a.cancelled_context is_ended
    else is_settled n requested is_ended rest

-- The operations while the executor of an admission runs: all of the coordinator and of its
-- goroutines but the end of that admission.
pub data RunningStep (n : ℕ) : Coordinator → Coordinator → Type 0 where
  begins :
      (can_execute : Text → Bool) (i : Index) (e : Entrant) (work : Bool) (c : Coordinator)
      → RunningStep n c (begin can_execute i e work c).0
  launches : (m : ℕ) (task_id : Text) (c : Coordinator) → RunningStep n c (launch m task_id c).0
  finalizes : (m : ℕ) (c : Coordinator) → RunningStep n c (finalize m c).0
  exits : (m : ℕ) (c : Coordinator) → (m == n) ≡ false → RunningStep n c (release_locked m c)
  releases : (m : ℕ) (c : Coordinator) → (m == n) ≡ false → RunningStep n c (release_admission m c)
  cancels :
      (i : Index) (owner task_id : Text) (c : Coordinator)
      → RunningStep n c (cancel_task i owner task_id c).0
  drains : (b : Bool) (c : Coordinator) → RunningStep n c (drain_coordinator b c)
  stops : (c : Coordinator) → RunningStep n c (stop_coordinator c)
  effect_begins : (c : Coordinator) → RunningStep n c (begin_effect c).0
  effect_ends : (c : Coordinator) → RunningStep n c (end_effect c)

pub data Running (n : ℕ) : Coordinator → Coordinator → Type 0 where
  at_once : {c : Coordinator} → Running n c c
  then_step : {c c' c'' : Coordinator} → Running n c c' → RunningStep n c' c'' → Running n c c''

-- The admission of a number that has been handed out is settled.
abbrev Settled : ℕ → Bool → Bool → Coordinator → Type 0
Settled n requested is_ended c =
    (n < c.next_number) × (is_settled n requested is_ended c.active ≡ true)

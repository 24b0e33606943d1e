-- ===== src/Examples/Services.antt =====
-- core/access, core/preference, core/runtimecontrol and core/execution: the theorems, applied.
use codex_link_clawbot.Prelude.{ok, err, all, any, ℕ, ◌≡◌, refl, true, false, some, [], ◌∷◌}
use codex_link_clawbot.Text.{
  Text, text, text_eq, is_empty, len, valid_utf8, is_space, trim_left, trim_right, trim_space,
  contains_rune, contains_any, is_lower, is_digit, is_hex, after_prefix, has_prefix, is_task_id,
  is_safe_id, is_reason, is_sha256, valid_single_line, valid_attachment_name, split_path,
  is_plain_segment, is_clean_below,
}
use codex_link_clawbot.Map.{Map, lookup, insert, delete, contains}
use codex_link_clawbot.Presentation.{
  valid_mode, valid_style, mode_eq, style_eq, normalize_style, plain, noir,
}
use codex_link_clawbot.Request.Types.{is_pending, Index}
use codex_link_clawbot.Access.{
  validate_state, new_lock, enabled, is_locked, save_lock, set_lock, lock, unlock, lock_not_saved,
  RemoteLock,
}
use codex_link_clawbot.Access.Locked.{set_lock-restart}
use codex_link_clawbot.Preference.{
  validate_preferences, default_preferences, load_preferences, get_preferences, put_rows,
  save_preferences, update_preferences, save_style, save_mode, save_both, OwnerPreferences,
  preferences_not_saved, Preferences,
}
use codex_link_clawbot.Runtime.{
  new_controller, working_state, recalculated_state, recalculate, set_codex_ready, set_ready,
  set_stopping, begin_ingress, end_ingress, set_draining, new_monitor_probe, probe_at, put_probe,
  set_healthy_locked, without_batch, set_pending_locked, set_running, set_healthy,
  set_batch_pending, oldest, snapshot, drain, resume, ready, Controller,
}
use codex_link_clawbot.Runtime.Invariant.{WellFormed, Step, Reachable}
use codex_link_clawbot.Runtime.Steps.{Reachable-WellFormed}
use codex_link_clawbot.Runtime.Reports.{snapshot-ready, snapshot-drained}
use codex_link_clawbot.Execution.{
  new_coordinator, begin, launch, finalize, cancel_task, Coordinator, Entrant,
}
use codex_link_clawbot.Execution.Sessions.{
  CoordinatorReachable-Exclusive, Exclusive, CoordinatorStep, CoordinatorReachable,
}

abbrev anna : Text
anna = b'a' ∷ []

abbrev open_lock : RemoteLock
open_lock = record { code = b'7' ∷ []; version = 1; owners = []; rows = [] }

abbrev shut_lock : RemoteLock
shut_lock = record open_lock { owners = (anna, true) ∷ []; rows = anna ∷ [] }

locks :
    (set_lock true anna true open_lock ≡ (shut_lock, ok tt))
    × (set_lock false anna true open_lock ≡ (open_lock, err lock_not_saved))
    × (unlock true anna (b'7' ∷ []) shut_lock ≡ (open_lock, ok tt))
    × (validate_state open_lock ≡ ok tt)
    × (is_empty open_lock.code ≡ false)
unfolding validate_state new_lock enabled is_locked save_lock set_lock lock unlock text text_eq
    is_empty len valid_utf8 is_space trim_left trim_right trim_space contains_rune contains_any
    is_lower is_digit is_hex after_prefix has_prefix is_task_id is_safe_id is_reason is_sha256
    valid_single_line valid_attachment_name split_path is_plain_segment is_clean_below lookup insert
    delete contains
locks = (refl, refl, refl, refl, refl)

set_lock-restart_example :
    (loaded : RemoteLock) × (new_lock shut_lock.code shut_lock.rows ≡ ok loaded)
    × (is_locked loaded anna ≡ is_locked shut_lock anna)
set_lock-restart_example = set_lock-restart true anna true open_lock anna locks.4 locks.0

abbrev no_preferences : Preferences
no_preferences = record { version = 1; owners = []; rows = [] }

abbrev noir_preferences : Preferences
noir_preferences =
    let m : Map OwnerPreferences = (anna, record { style = noir; response_mode = plain }) ∷ [] in
    record { version = 1; owners = m; rows = m }

abbrev to_noir : OwnerPreferences → OwnerPreferences
to_noir p = record p { style = noir }

choices :
    (update_preferences true anna to_noir no_preferences ≡ (noir_preferences, ok tt))
    × (update_preferences false anna to_noir no_preferences
        ≡ (no_preferences, err preferences_not_saved))
    × (save_style true anna noir no_preferences ≡ (noir_preferences, ok tt))
unfolding validate_preferences default_preferences load_preferences get_preferences put_rows
    save_preferences update_preferences save_style save_mode save_both text text_eq is_empty len
    valid_utf8 is_space trim_left trim_right trim_space contains_rune contains_any is_lower is_digit
    is_hex after_prefix has_prefix is_task_id is_safe_id is_reason is_sha256 valid_single_line
    valid_attachment_name split_path is_plain_segment is_clean_below lookup insert delete contains
    valid_mode valid_style mode_eq style_eq normalize_style
choices = (refl, refl, refl)

-- A controller with one monitor that is healthy.
abbrev watched : Controller
watched = new_monitor_probe (new_controller [] 5 (some false))

abbrev running_monitor : Controller
running_monitor = set_running 0 true 6 watched

abbrev healthy_monitor : Controller
healthy_monitor = set_ready (set_codex_ready true (set_healthy 0 true 7 running_monitor))

healthy_monitor-Reachable : Reachable healthy_monitor
healthy_monitor-Reachable =
    Reachable.after
      (Reachable.after
        (Reachable.after
          (Reachable.after
            (Reachable.after (Reachable.started [] 5 (some false))
              (Step.monitor (new_controller [] 5 (some false))))
            (Step.run 0 true 6 watched))
          (Step.health 0 true 7 running_monitor))
        (Step.codex true (set_healthy 0 true 7 running_monitor)))
      (Step.initialize (set_codex_ready true (set_healthy 0 true 7 running_monitor)))

abbrev no_activity : ℕ × ℕ
no_activity = (0, 0)

reports :
    ((snapshot 9 no_activity healthy_monitor).status ≡ ready)
    × ((snapshot 9 no_activity (set_draining true healthy_monitor)).drain_complete ≡ true)
unfolding new_controller working_state recalculated_state recalculate set_codex_ready set_ready
    set_stopping begin_ingress end_ingress set_draining new_monitor_probe probe_at put_probe
    set_healthy_locked without_batch set_pending_locked set_running set_healthy set_batch_pending
    oldest snapshot drain resume text text_eq is_empty len valid_utf8 is_space trim_left trim_right
    trim_space contains_rune contains_any is_lower is_digit is_hex after_prefix has_prefix
    is_task_id is_safe_id is_reason is_sha256 valid_single_line valid_attachment_name split_path
    is_plain_segment is_clean_below
reports = (refl, refl)

Reachable-WellFormed_example : WellFormed healthy_monitor
Reachable-WellFormed_example = Reachable-WellFormed healthy_monitor-Reachable

snapshot-ready_example :
    (healthy_monitor.codex_ready ≡ true)
    × (healthy_monitor.initialized ≡ true)
    × (healthy_monitor.is_draining ≡ false)
    × (all (λ p. p.is_healthy) healthy_monitor.probes ≡ true)
snapshot-ready_example = snapshot-ready 9 no_activity healthy_monitor-Reachable reports.0

snapshot-drained_example :
    ((set_draining true healthy_monitor).is_draining ≡ true)
    × (no_activity ≡ no_activity)
    × ((set_draining true healthy_monitor).staging ≡ 0)
    × (any (λ p. p.is_pending) (set_draining true healthy_monitor).probes ≡ false)
snapshot-drained_example =
    snapshot-drained 9 no_activity
      (Reachable.after healthy_monitor-Reachable (Step.drain_set true healthy_monitor)) reports.1

abbrev no_index : Index
no_index = record { version = 4; next_order = 1; owners = []; rejected = []; cleared = [] }

abbrev entrant : Entrant
entrant = record { owner = anna; target = []; thread = anna; source = anna }

abbrev busy_coordinator : Coordinator
busy_coordinator = (begin (λ o. true) no_index entrant true new_coordinator).0

-- The admission of task `anna`, which its executor has ended, and two cancels of that task.
abbrev launched_coordinator : Coordinator
launched_coordinator = (launch 0 anna busy_coordinator).0

abbrev finalized_coordinator : Coordinator
finalized_coordinator = (finalize 0 launched_coordinator).0

abbrev cancelled_coordinator : Coordinator
cancelled_coordinator =
    (cancel_task no_index anna anna (cancel_task no_index anna anna finalized_coordinator).0).0

CoordinatorReachable-Exclusive_example : Exclusive busy_coordinator
CoordinatorReachable-Exclusive_example = CoordinatorReachable-Exclusive (
    CoordinatorReachable.then_step CoordinatorReachable.fresh
      (CoordinatorStep.begins (λ o. true) no_index entrant true new_coordinator))

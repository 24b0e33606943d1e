-- ===== src/Examples/Progressed.antt =====
-- core/execution and core/presentation: the theorems on progress and on lines, applied.
use codex_link_clawbot.Prelude.{ok, ◌≡◌, refl, true, false, some, List, [], ◌∷◌}
use codex_link_clawbot.Text.{
  Text, text, text_eq, is_empty, len, valid_utf8, is_space, trim_left, trim_right, trim_space,
  contains_rune, contains_any, is_lower, is_digit, is_hex, after_prefix, has_prefix, is_task_id,
  is_safe_id, is_reason, is_sha256, valid_single_line, valid_attachment_name, split_path,
  is_plain_segment, is_clean_below,
}
use codex_link_clawbot.Presentation.Lines.{squeeze_after, squeeze, truncate, normalize_line}
use codex_link_clawbot.Presentation.Activity.{
  is_stop, run_length, fold_case, after_folded, prefixed_length, url_length, unix_path_length,
  windows_path_length, replace_from, sanitize_activity, starts_run, is_pathless,
}
use codex_link_clawbot.Presentation.Drives.{is_driveless, sanitize_activity-hides_paths}
use codex_link_clawbot.Presentation.Numbers.{digits_of, decimal, number_from, ℤ}
use codex_link_clawbot.Progress.{
  validate_progress, new_reporter, phase_text, terminal_turn_phase, plan_signature, plan_message,
  plan_update, prepare_known, prepare_phase_update, accept_update, accept, report, close_reporter,
  TurnPhase, turn_started, turn_completed, turn_failed, TurnEvent, ProgressConfig, PhaseUpdate,
  Reporter,
}
use codex_link_clawbot.Progress.Accepted.{
  accepted_events, is_one_turn, ends_with_terminal, has_no_repeat, accepted_events-in_order,
}
use codex_link_clawbot.Progress.Plans.{plan_event}

abbrev a_turn : Text
a_turn = b'1' ∷ []

abbrev quiet_config : ProgressConfig
quiet_config = record { enabled = false; typing_interval = ℤ.pos 0; first_message_delay = ℤ.pos 0 }

abbrev new_one : Reporter
new_one = record { last_accepted = []; turn_id = []; frozen = false; is_cancelled = false }

abbrev turn_event : TurnPhase → TurnEvent
turn_event phase = record {
  turn_id = a_turn;
  phase = phase;
  step = [];
  complete = ℤ.pos 0;
  total = ℤ.pos 0;
}

abbrev busy_events : List TurnEvent
busy_events =
    turn_event turn_started
    ∷ turn_event turn_started
    ∷ turn_event turn_completed
    ∷ turn_event turn_failed
    ∷ []

abbrev planned : Reporter
planned = (accept (plan_event a_turn [] 0 2) new_one).0

abbrev first_plan : PhaseUpdate
first_plan = plan_update 0 2 []

progressed :
    (new_reporter quiet_config true ≡ ok new_one)
    × (accept (plan_event a_turn [] 0 2) new_one ≡ (planned, some first_plan))
    × (plan_signature 12 40 []
        ≡ b'p' ∷ b'l' ∷ b'a' ∷ b'n' ∷ b'n' ∷ b'i' ∷ b'n' ∷ b'g' ∷ b':' ∷ b'1' ∷ b'2' ∷ b':' ∷ b'4'
          ∷ b'0' ∷ b':' ∷ [])
    × (sanitize_activity (b'a' ∷ 32 ∷ b'/' ∷ b'x' ∷ 32 ∷ 32 ∷ b'b' ∷ [])
        ≡ b'a' ∷ 32 ∷ 0x5b ∷ 0x672c ∷ 0x673a ∷ 0x8def ∷ 0x5f84 ∷ 0x5d ∷ 32 ∷ b'b' ∷ [])
    × (normalize_line (32 ∷ b'a' ∷ 10 ∷ b'b' ∷ b'c' ∷ []) 3 ≡ b'a' ∷ 0x2026 ∷ [])
unfolding validate_progress new_reporter phase_text terminal_turn_phase plan_signature plan_message
    prepare_known prepare_phase_update accept_update accept report close_reporter squeeze_after
    squeeze truncate normalize_line is_stop run_length fold_case after_folded prefixed_length
    url_length unix_path_length windows_path_length replace_from sanitize_activity starts_run
    is_pathless digits_of decimal number_from text text_eq is_empty len valid_utf8 is_space
    trim_left trim_right trim_space contains_rune contains_any is_lower is_digit is_hex after_prefix
    has_prefix is_task_id is_safe_id is_reason is_sha256 valid_single_line valid_attachment_name
    split_path is_plain_segment is_clean_below
progressed = (refl, refl, refl, refl, refl)

accepted_events-in_order_example :
    (is_one_turn (accepted_events busy_events new_one) ≡ true)
    × (ends_with_terminal (accepted_events busy_events new_one) ≡ true)
    × (has_no_repeat [] (accepted_events busy_events new_one) ≡ true)
accepted_events-in_order_example =
    accepted_events-in_order quiet_config true busy_events progressed.0

-- `C:\a /x`
abbrev activity_with_paths : Text
activity_with_paths = b'C' ∷ b':' ∷ b'\\' ∷ b'a' ∷ 32 ∷ b'/' ∷ b'x' ∷ []

sanitize_activity-hides_paths_example :
    (is_pathless (sanitize_activity activity_with_paths) ≡ true)
    × (is_driveless (sanitize_activity activity_with_paths) ≡ true)
sanitize_activity-hides_paths_example = sanitize_activity-hides_paths activity_with_paths

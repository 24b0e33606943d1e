-- ===== src/Progress.antt =====
-- core/execution/progress.go: the phases of a turn that are persisted, and core/codex/types.go: the
-- events that tell of them. The timers of `run` only send.
use codex_link_clawbot.Prelude.{
  ltb, if◌then◌else◌, reject_if, ◌>>=◌, ◌>>◌, Fallible, ok, ℕ, Bool, true, false, ◌&&◌, ◌||◌, not,
  Option, none, some, [], ◌∷◌, ◌++◌,
}
use codex_link_clawbot.Text.{Text, text, text_eq, is_empty, trim_space}
use codex_link_clawbot.Presentation.Lines.{truncate}
use codex_link_clawbot.Presentation.Activity.{sanitize_activity}
use codex_link_clawbot.Presentation.Numbers.{decimal, ℤ, pos, negsuc}
pub mod Accepted
pub mod Plans

pub data TurnPhase : Type 0 where
  turn_started turn_reasoning turn_planning turn_working : TurnPhase
  turn_finalizing turn_completed turn_failed turn_interrupted : TurnPhase
  other_phase : Text → TurnPhase

-- `TurnPhaseEvent`
pub record TurnEvent : Type 0 where
  pub turn_id : Text
  pub phase : TurnPhase
  pub step : Text
  pub complete : ℤ
  pub total : ℤ

pub data ProgressError : Type 0 where
  invalid_progress_config : ProgressError

-- `ProgressConfig`
pub record ProgressConfig : Type 0 where
  pub enabled : Bool
  pub typing_interval : ℤ
  pub first_message_delay : ℤ

-- `ProgressReporter`, with the signature and the message of an update.
pub record PhaseUpdate : Type 0 where
  pub signature : Text
  pub message : Text

pub record Reporter : Type 0 where
  pub last_accepted : Text
  pub turn_id : Text
  pub frozen : Bool
  pub is_cancelled : Bool

abbrev is_positive : ℤ → Bool
is_positive (ℤ.pos n) = ltb 0 n
is_positive (ℤ.negsuc n) = false

abbrev is_negative : ℤ → Bool
is_negative (ℤ.pos n) = false
is_negative (ℤ.negsuc n) = true

-- `ProgressConfig.Validate`
unfoldable pub validate_progress : ProgressConfig → Fallible ProgressError (Unit {0})
validate_progress config =
    reject_if
      (config.enabled
        && (not (is_positive config.typing_interval) || is_negative config.first_message_delay))
      invalid_progress_config

-- `NewProgressReporter`; the second argument tells whether the channel can send the slow notice.
unfoldable pub new_reporter : ProgressConfig → Bool → Fallible ProgressError Reporter
unfolding validate_progress
new_reporter config can_send_slow = do
  validate_progress config
  reject_if (config.enabled && not can_send_slow) invalid_progress_config
  ok (record { last_accepted = []; turn_id = []; frozen = false; is_cancelled = false })

-- `string(phase)`
unfoldable pub phase_text : TurnPhase → Text
unfolding text
phase_text turn_started = text "started"
phase_text turn_reasoning = text "reasoning"
phase_text turn_planning = text "planning"
phase_text turn_working = text "working"
phase_text turn_finalizing = text "finalizing"
phase_text turn_completed = text "completed"
phase_text turn_failed = text "failed"
phase_text turn_interrupted = text "interrupted"
phase_text (TurnPhase.other_phase t) = t

-- `terminalTurnPhase`
unfoldable pub terminal_turn_phase : TurnPhase → Bool
terminal_turn_phase turn_completed = true
terminal_turn_phase turn_failed = true
terminal_turn_phase turn_interrupted = true
terminal_turn_phase _ = false

abbrev pub plain_update : TurnPhase → Text → Option PhaseUpdate
plain_update phase message = some (record { signature = phase_text phase; message = message })

-- `%s:%d:%d:%s`
unfoldable pub plan_signature : ℕ → ℕ → Text → Text
unfolding decimal phase_text
plan_signature complete total step =
    phase_text turn_planning ++ (b':' ∷ decimal complete ++ (b':' ∷ decimal total ++ (b':' ∷ step)))

-- `Codex 阶段：计划 %d/%d`, and the step after a dot.
unfoldable pub plan_message : ℕ → ℕ → Text → Text
unfolding decimal text
plan_message complete total step =
    let counts = text "Codex 阶段：计划 " ++ decimal complete ++ (b'/' ∷ decimal total) in
    if is_empty step then counts else counts ++ text " · " ++ step

abbrev pub plan_update : ℕ → ℕ → Text → PhaseUpdate
plan_update complete total step = record {
  signature = plan_signature complete total step;
  message = plan_message complete total step;
}

-- `preparePhaseUpdate`
unfoldable pub prepare_known : TurnEvent → TurnPhase → Option PhaseUpdate
unfolding plan_signature plan_message truncate sanitize_activity phase_text text
prepare_known e turn_started = plain_update turn_started (text "Codex 阶段：轮次已开始")
prepare_known e turn_reasoning = plain_update turn_reasoning (text "Codex 阶段：正在推理")
prepare_known e turn_planning = elim e.total [
  | negsuc t ↦ none
  | pos total ↦ elim e.complete [
    | negsuc c ↦ none
    | pos complete ↦
        if ltb total 1 || ltb total complete
        then none
        else some (plan_update complete total (truncate (sanitize_activity e.step) 72))
  ]
]
prepare_known e turn_working = plain_update turn_working (text "Codex 阶段：正在执行工作项")
prepare_known e turn_finalizing = plain_update turn_finalizing (text "Codex 阶段：正在生成最终回答")
prepare_known e turn_completed = plain_update turn_completed (text "Codex 阶段：轮次已完成")
prepare_known e turn_failed = plain_update turn_failed (text "Codex 阶段：轮次执行失败")
prepare_known e turn_interrupted = plain_update turn_interrupted (text "Codex 阶段：轮次已中断")
prepare_known e (TurnPhase.other_phase t) = none

unfoldable pub prepare_phase_update : TurnEvent → Option PhaseUpdate
unfolding prepare_known trim_space
prepare_phase_update e = if is_empty (trim_space e.turn_id) then none else prepare_known e e.phase

-- `accept`
unfoldable pub accept_update : TurnEvent → PhaseUpdate → Reporter → Reporter × Bool
unfolding terminal_turn_phase
accept_update e update r =
    if r.frozen
      || (not (is_empty r.turn_id) && not (text_eq r.turn_id e.turn_id))
      || text_eq r.last_accepted update.signature
    then (r, false)
    else (
      (record r {
        turn_id = if is_empty r.turn_id then e.turn_id else r.turn_id;
        last_accepted = update.signature;
        frozen = terminal_turn_phase e.phase || r.frozen;
      }),
      true,
    )

unfoldable pub accept : TurnEvent → Reporter → Reporter × Option PhaseUpdate
unfolding prepare_phase_update accept_update
accept e r = elim (prepare_phase_update e) [
  | none ↦ (r, none)
  | some update ↦
      let (r', accepted) = accept_update e update r in (r', if accepted then some update else none)
]

-- `Report`, with the message that it persists.
unfoldable pub report : TurnEvent → Reporter → Reporter × Option Text
unfolding accept terminal_turn_phase
report e r =
    let (r', accepted) = accept e r in
    elim accepted [
      | none ↦ (r', none)
      | some update ↦ (
        (record r' { is_cancelled = terminal_turn_phase e.phase || r'.is_cancelled }),
        some update.message,
      )
    ]

-- `Close`
unfoldable pub close_reporter : Reporter → Reporter
close_reporter r = record r { frozen = true; is_cancelled = true }

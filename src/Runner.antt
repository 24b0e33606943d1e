-- ===== src/Runner.antt =====
-- core/execution/runner.go: one execution of a request, from its input to its delivery. What other
-- goroutines do to the stores between two calls is left out.
use codex_link_clawbot.Prelude.{
  leb, ◌==◌, max, if◌then◌else◌, passes, Fallible, ok, err, ℕ, ◌+◌, Bool, true, false, ◌&&◌, ◌||◌,
  not, Option, none, some, List, [], ◌∷◌, ◌++◌,
}
use codex_link_clawbot.Text.{Text, text, text_eq, is_empty}
use codex_link_clawbot.Presentation.Lines.{normalize_line}
use codex_link_clawbot.Request.Types.{
  state_eq, running, failed, interrupted, cancelled, Task, DeliveryOutcome, explicit_failure,
  ambiguous, DeliveryReceipt, ResultArtifact, Result, Error, result_unavailable,
}
use codex_link_clawbot.Request.Index.{find}
use codex_link_clawbot.Request.Storage.{Store, World}
use codex_link_clawbot.Request.Lifecycle.{
  update_stage, attach_thread, attach_usage, attach_turn, finish,
}
use codex_link_clawbot.Request.Delivery.{
  complete_execution, load_completion, freeze_result, begin_delivery, FreezeResultInput,
}
use codex_link_clawbot.Request.Receipts.{record_delivery}
use codex_link_clawbot.Target.{resolve, answer, bind, Intent, TargetError, Targets, TargetWorld}
use codex_link_clawbot.Progress.{new_reporter, report, TurnEvent, ProgressConfig, Reporter}
pub mod Kept
pub mod Concluded
pub mod Sent
pub mod Once
pub mod Restored

-- The errors of Codex that the runner tells apart.
pub data ChatError : Type 0 where
  err_interrupt_unconfirmed err_turn_interrupted err_context_canceled err_thread_busy : ChatError
  other_error : ChatError

-- What the runner hands to the channel.
pub data Sending : Type 0 where
  delivers : Result → Sending
  notifies : Text → Sending
  defers : Text → Sending

-- The stores, the number of calls of the request store, and what was sent.
pub record Run : Type 0 where
  pub requests : Store
  pub targets : Targets
  pub calls : ℕ
  pub sent : List Sending

-- What an execution takes from outside, and from the code that is not modelled: whether the input
-- loads, the workspace is there and the outbox can be made, what the channel's Prepare does to the
-- store, the answers of Codex, and the files of the result.
pub record Outside : Type 0 where
  pub world : ℕ → World
  pub target_world : TargetWorld
  pub loads : Bool
  pub has_workspace : Text → Bool
  pub progress : ProgressConfig
  pub can_send_slow : Bool
  pub prepare : Store → Store × Bool
  pub is_live_prepared : Bool
  pub has_outbox : Bool
  pub opens : Text → Fallible ChatError Text
  pub events : List TurnEvent
  pub chat : Fallible ChatError Text
  pub usage : Option (ℕ × ℕ × ℕ)
  pub finalizes : Bool
  pub is_live : Bool
  pub collect : Text → Fallible Error FreezeResultInput
  pub freeze_file : Text → Fallible Error ResultArtifact
  pub deliver : Result → DeliveryReceipt
  pub delivered_at : ℕ
  pub read_turn : Text → Text → Option Text

-- Why a request stops before Codex has answered, and whether the thread was busy.
pub record Stop : Type 0 where
  pub reason : Text
  pub is_busy : Bool

abbrev pub use_requests :
    {A : Type 0}
    → Outside
    → (World → Store → Store × Fallible Error A)
    → Run
    → Run × Fallible Error A
use_requests w call run =
    let (s, answer) = call (w.world run.calls) run.requests in
    (record run { requests = s; calls = run.calls + 1 }, answer)

abbrev pub send : Sending → Run → Run
send what run = record run { sent = run.sent ++ (what ∷ []) }

abbrev pub is_busy_error : ChatError → Bool
is_busy_error err_thread_busy = true
is_busy_error _ = false

abbrev pub busy_or : Bool → Text → Text
busy_or busy reason = if busy then text "session_busy" else reason

-- `fail`
unfoldable pub fail : Outside → Task → Stop → Run → Run
unfolding finish text
fail w t why run =
    let reason = busy_or why.is_busy why.reason in
    let (run', done) = use_requests w (λ world. finish world t.owner_id t.id failed reason) run in
    send (notifies reason) run'

-- `cancelled`
unfoldable pub cancelled_run : Outside → Task → Run → Run
unfolding finish text
cancelled_run w t run =
    let reason = text "user_cancelled" in
    let (run', done) =
      use_requests w (λ world. finish world t.owner_id t.id cancelled reason) run in
    elim done [ ok x ↦ send (notifies reason) run' | err e ↦ run' ]

-- `failBefore`
unfoldable pub fail_before : Outside → Task → Stop → Run → Run
unfolding fail cancelled_run
fail_before w t why run =
    if w.finalizes then cancelled_run w t run else if w.is_live then fail w t why run else run

abbrev stops : Text → Stop
stops reason = record { reason = reason; is_busy = false }

-- The part of `Execute` that opens the thread and fixes it.
unfoldable pub open_thread : Outside → Task → Intent → Run → Run × Fallible Stop Text
unfolding attach_thread bind is_empty text
open_thread w t intent run =
    let wanted = if is_empty t.thread_id then intent.thread_id else t.thread_id in
    elim (w.opens wanted) [
      | err e ↦
          (run, err (record { reason = text "session_unavailable"; is_busy = is_busy_error e }))
      | ok thread ↦
          let (targets, resolved) = bind w.target_world t.owner_id t.target_id thread run.targets in
          let bound : Run × Fallible TargetError (Unit {0}) =
            if is_empty intent.thread_id
            then (record run { targets = targets }, resolved)
            else (run, ok tt) in
          elim bound.1 [
            | err e ↦ (bound.0, err (stops (text "session_unavailable")))
            | ok u ↦
                let (run', attached) =
                  use_requests w (λ world. attach_thread world t.owner_id t.id thread) bound.0 in
                if is_empty t.thread_id
                then elim attached [
                  | err e ↦ (run', err (stops (text "session_unavailable")))
                  | ok x ↦ (run', ok thread)
                ]
                else (bound.0, ok t.thread_id)
          ]
    ]

-- `PrepareOutbox` needs a running request.
unfoldable pub can_prepare_outbox : Outside → Task → Run → Bool
unfolding find state_eq
can_prepare_outbox w t run = elim (find run.requests.index t.owner_id t.id) [
  | none ↦ false
  | some x ↦ state_eq x.state running && w.has_outbox
]

-- The part of `Execute` before the chat: the thread, or why it stops.
unfoldable pub prepare_run : Outside → Task → Run → Run × Fallible Stop Text
unfolding new_reporter can_prepare_outbox resolve open_thread text_eq text
prepare_run w t run =
    let (s, prepared) = w.prepare run.requests in
    let ready = record run { requests = s } in
    if not w.loads
    then (run, err (stops (text "payload_invalid")))
    else if not (w.has_workspace t.project_id)
    then (run, err (stops (text "project_unavailable")))
    else if not (passes (new_reporter w.progress w.can_send_slow))
    then (run, err (stops (text "payload_invalid")))
    else if not prepared || not w.is_live_prepared
    then (ready, err (stops (text "payload_invalid")))
    else if not (can_prepare_outbox w t ready)
    then (ready, err (stops (text "payload_invalid")))
    else elim (resolve t.owner_id t.target_id ready.targets) [
      | err e ↦ (ready, err (stops (text "session_unavailable")))
      | ok intent ↦
          if text_eq intent.workspace_id t.project_id
          then open_thread w t intent ready
          else (ready, err (stops (text "session_unavailable")))
    ]

-- The callback on an event of the turn: the turn is fixed, and an accepted phase is a stage line.
unfoldable pub follow_event : Outside → Task → TurnEvent → Reporter × Run → Reporter × Run
unfolding attach_turn report update_stage normalize_line is_empty
follow_event w t e (reporter, run) =
    let fixed = (use_requests w (λ world. attach_turn world t.owner_id t.id e.turn_id) run).0 in
    let noted = if is_empty e.turn_id then run else fixed in
    let (reporter', message) = report e reporter in
    elim message [
      | none ↦ (reporter', noted)
      | some line ↦ (
        reporter',
        (use_requests w (λ world. update_stage world t.owner_id t.id (normalize_line line 120))
            noted).0,
      )
    ]

unfoldable pub follow_events : Outside → Task → List TurnEvent → Reporter × Run → Reporter × Run
unfolding follow_event
follow_events w t [] at = at
follow_events w t (e ∷ es) at = follow_events w t es (follow_event w t e at)

-- The chat: its events, and the usage that is known after it.
unfoldable pub chat_run : Outside → Task → Run → Run
unfolding follow_events new_reporter attach_usage
chat_run w t run =
    let followed : Run = elim (new_reporter w.progress w.can_send_slow) [
      | err e ↦ run
      | ok reporter ↦ (follow_events w t w.events (reporter, run)).1
    ] in
    elim w.usage [
      | none ↦ followed
      | some (input, output, total) ↦
          (use_requests w (λ world. attach_usage world t.owner_id t.id input output total)
            followed).0
    ]

-- `freeze`
unfoldable pub freeze_reply : Outside → Text → Text → Text → Run → Run × Fallible Error Result
unfolding freeze_result
freeze_reply w owner id reply run = elim (w.collect reply) [
  | err e ↦ (run, err e)
  | ok input ↦ use_requests w (λ world. freeze_result world w.freeze_file owner id input) run
]

-- The notice on a delivery that failed or may have failed.
unfoldable pub defer_outcome : DeliveryOutcome → Run → Run
unfolding text
defer_outcome explicit_failure run = send (defers (text "delivery_failed")) run
defer_outcome ambiguous run = send (defers (text "delivery_ambiguous")) run
defer_outcome _ run = run

-- The delivery of `Execute` and its receipt.
unfoldable pub deliver_result : Outside → Task → Result → Run → Run
unfolding record_delivery finish defer_outcome text
deliver_result w t result run =
    let receipt = record (w.deliver result) {
      attempted_at = max w.delivered_at result.frozen_at;
    } in
    let handed = send (delivers result) run in
    let (noted, done) =
      use_requests w (λ world. record_delivery world t.owner_id t.id receipt true) handed in
    elim done [
      | err e ↦
          let unsure = text "delivery_ambiguous" in
          let ended =
            (use_requests w (λ world. finish world t.owner_id t.id interrupted unsure) noted).0 in
          send (defers unsure) ended
      | ok x ↦ defer_outcome receipt.outcome noted
    ]

-- The part of `Execute` after Codex has answered.
unfoldable pub conclude : Outside → Task → Text → Run → Run
unfolding complete_execution freeze_reply begin_delivery deliver_result fail text
conclude w t reply run =
    let (kept, completed) =
      use_requests w (λ world. complete_execution world t.owner_id t.id reply) run in
    elim completed [
      | err e ↦ fail w t (stops (text "result_freeze_failed")) kept
      | ok x ↦
          let (archived, frozen) = freeze_reply w t.owner_id t.id reply kept in
          elim frozen [
            | err e ↦ fail w t (stops (text "result_freeze_failed")) archived
            | ok result ↦
                let (begun, delivering_task) =
                  use_requests w (λ world. begin_delivery world t.owner_id t.id) archived in
                elim delivering_task [
                  | err e ↦ fail w t (stops (text "delivery_failed")) begun
                  | ok y ↦ deliver_result w t result begun
                ]
          ]
    ]

-- The part of `Execute` after Codex has failed.
unfoldable pub chat_failed : Outside → Task → ChatError → Run → Run
unfolding fail cancelled_run text
chat_failed w t e run =
    let failed_run =
      if w.is_live
      then fail w t (record { reason = text "codex_failed"; is_busy = is_busy_error e }) run
      else run in
    if w.finalizes
    then elim e [
      | err_interrupt_unconfirmed ↦ fail w t (stops (text "interrupt_unconfirmed")) run
      | err_turn_interrupted ↦ cancelled_run w t run
      | err_context_canceled ↦ cancelled_run w t run
      | _ ↦ failed_run
    ]
    else failed_run

-- `Execute`
unfoldable pub execute : Outside → Task → Run → Run
unfolding prepare_run fail_before chat_run conclude chat_failed
execute w t run =
    let (ready, prepared) = prepare_run w t run in
    elim prepared [
      | err why ↦ fail_before w t why ready
      | ok thread ↦
          let answered = chat_run w (record t { thread_id = thread }) ready in
          elim w.chat [
            | err e ↦ chat_failed w t e answered
            | ok reply ↦ conclude w t reply answered
          ]
    ]

-- `RestoreResult`
unfoldable pub restore_result : Outside → Text → Text → Run → Run × Fallible Error Result
unfolding freeze_reply load_completion find
restore_result w owner id run = elim (find run.requests.index owner id) [
  | none ↦ (run, err result_unavailable)
  | some t ↦
      let now = (w.world run.calls).now in
      if t.execution_completed_at == 0 || not t.archive_failed || leb t.result_expires_at now
      then (run, err result_unavailable)
      else elim (load_completion now owner id run.requests) [
        | ok c ↦ freeze_reply w t.owner_id t.id c.reply run
        | err e ↦ elim (w.read_turn t.thread_id t.turn_id) [
          | none ↦ (run, err result_unavailable)
          | some reply ↦
              if is_empty t.turn_id
              then (run, err result_unavailable)
              else freeze_reply w t.owner_id t.id reply run
        ]
      ]
]

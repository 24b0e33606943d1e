-- ===== src/Runner/Sent.antt =====
-- core/execution/runner.go: what an execution hands to the channel.
use codex_link_clawbot.Prelude.{
  max, Fallible-cases, Fallible, sum_of, sum_of-append, ℕ, ◌+◌, ◌≤◌, ◌≡◌, refl, inl, inr, true,
  false, [], ◌∷◌, arith,
}
use codex_link_clawbot.Text.{Text, text}
use codex_link_clawbot.Request.Types.{
  interrupted, cancelled, Task, DeliveryOutcome, pending, explicit_failure, ambiguous,
  DeliveryReceipt, Result, Error,
}
use codex_link_clawbot.Request.Lifecycle.{finish}
use codex_link_clawbot.Request.Delivery.{complete_execution, begin_delivery}
use codex_link_clawbot.Request.Receipts.{record_delivery}
use codex_link_clawbot.Runner.{
  use_requests, send, is_busy_error, busy_or, fail, cancelled_run, fail_before, freeze_reply,
  defer_outcome, deliver_result, conclude, chat_failed, ChatError, Sending, delivers, notifies,
  defers, Run, Outside, Stop,
}

abbrev pub is_delivery : Sending → ℕ
is_delivery (delivers r) = 1
is_delivery (notifies reason) = 0
is_delivery (defers reason) = 0

abbrev pub deliveries : Run → ℕ
deliveries run = sum_of is_delivery run.sent

deliveries-send :
    (what : Sending) (run : Run) → deliveries (send what run) ≡ deliveries run + is_delivery what
deliveries-send what run = omega (arith, sum_of-append is_delivery run.sent (what ∷ []))

deliveries-deferred :
    (reason : Text) (run : Run) → deliveries (send (defers reason) run) ≡ deliveries run
deliveries-deferred reason run = omega (arith, deliveries-send (defers reason) run)

fail-deliveries :
    (w : Outside) (t : Task) (why : Stop) (run : Run)
    → deliveries (fail w t why run) ≡ deliveries run
unfolding fail
fail-deliveries w t why run =
    omega
      (arith, sum_of-append is_delivery run.sent (notifies (busy_or why.is_busy why.reason) ∷ []))

cancelled_run-deliveries :
    (w : Outside) (t : Task) (run : Run) → deliveries (cancelled_run w t run) ≡ deliveries run
unfolding cancelled_run
cancelled_run-deliveries w t run =
    let reason : Text = text "user_cancelled" in
    let ended : Run × Fallible Error Task =
      use_requests w (λ world. finish world t.owner_id t.id cancelled reason) run in
    elim (Fallible-cases ended.1) [
      | inr (e, bad) ↦ ground (arith, bad)
      | inl (x, good) ↦ ground (arith, good, deliveries-send (notifies reason) ended.0)
    ]

pub fail_before-deliveries :
    (w : Outside) (t : Task) (why : Stop) (run : Run)
    → deliveries (fail_before w t why run) ≡ deliveries run
unfolding fail_before
fail_before-deliveries w t why run =
    ground (arith, cancelled_run-deliveries w t run, fail-deliveries w t why run)

pub chat_failed-deliveries :
    (w : Outside) (t : Task) (e : ChatError) (run : Run)
    → deliveries (chat_failed w t e run) ≡ deliveries run
unfolding chat_failed
chat_failed-deliveries w t e run =
    let unconfirmed =
      fail-deliveries w t (record { reason = text "interrupt_unconfirmed"; is_busy = false }) run in
    let cancelled_there = cancelled_run-deliveries w t run in
    let broken =
      fail-deliveries w t (record { reason = text "codex_failed"; is_busy = is_busy_error e })
        run in
    ground (arith, unconfirmed, cancelled_there, broken)

defer_outcome-deliveries :
    (o : DeliveryOutcome) (run : Run) → deliveries (defer_outcome o run) ≡ deliveries run
unfolding defer_outcome
defer_outcome-deliveries pending run = refl
defer_outcome-deliveries DeliveryOutcome.succeeded run = refl
defer_outcome-deliveries explicit_failure run = deliveries-deferred (text "delivery_failed") run
defer_outcome-deliveries ambiguous run = deliveries-deferred (text "delivery_ambiguous") run
defer_outcome-deliveries (DeliveryOutcome.other t) run = refl

deliver_result-deliveries :
    (w : Outside) (t : Task) (result : Result) (run : Run)
    → deliveries (deliver_result w t result run) ≡ deliveries run + 1
unfolding deliver_result
deliver_result-deliveries w t result run =
    let receipt : DeliveryReceipt = record (w.deliver result) {
      attempted_at = max w.delivered_at result.frozen_at;
    } in
    let handed : Run = send (delivers result) run in
    let noted : Run × Fallible Error Result =
      use_requests w (λ world. record_delivery world t.owner_id t.id receipt true) handed in
    let one = deliveries-send (delivers result) run in
    elim (Fallible-cases noted.1) [
      | inl (x, good) ↦ ground (arith, good, one, defer_outcome-deliveries receipt.outcome noted.0)
      | inr (e, bad) ↦
          let ended : Run =
            (use_requests w
              (λ world. finish world t.owner_id t.id interrupted (text "delivery_ambiguous"))
              noted.0).0 in
          ground (arith, bad, one, deliveries-deferred (text "delivery_ambiguous") ended)
    ]

pub freeze_reply-sent :
    (w : Outside) (owner id reply : Text) (run : Run)
    → (freeze_reply w owner id reply run).0.sent ≡ run.sent
unfolding freeze_reply
freeze_reply-sent w owner id reply run = elim (Fallible-cases (w.collect reply)) [
  | inr (e, bad) ↦ ground (arith, bad)
  | inl (input, good) ↦ ground (arith, good)
]

pub conclude-deliveries :
    (w : Outside) (t : Task) (reply : Text) (run : Run)
    → deliveries (conclude w t reply run) ≤ deliveries run + 1
unfolding conclude
conclude-deliveries w t reply run =
    let why : Text → Stop = λ reason. record { reason = reason; is_busy = false } in
    let kept : Run × Fallible Error Task =
      use_requests w (λ world. complete_execution world t.owner_id t.id reply) run in
    let archived : Run × Fallible Error Result = freeze_reply w t.owner_id t.id reply kept.0 in
    let begun : Run × Fallible Error Task =
      use_requests w (λ world. begin_delivery world t.owner_id t.id) archived.0 in
    let same = freeze_reply-sent w t.owner_id t.id reply kept.0 in
    elim (Fallible-cases kept.1) [
      | inr (e, bad) ↦
          ground (arith, bad, fail-deliveries w t (why (text "result_freeze_failed")) kept.0)
      | inl (x, good) ↦ elim (Fallible-cases archived.1) [
        | inr (e, bad) ↦ ground (
          arith,
          good,
          bad,
          same,
          fail-deliveries w t (why (text "result_freeze_failed")) archived.0,
        )
        | inl (result, frozen) ↦ elim (Fallible-cases begun.1) [
          | inr (e, bad) ↦ ground (
            arith,
            good,
            frozen,
            bad,
            same,
            fail-deliveries w t (why (text "delivery_failed")) begun.0,
          )
          | inl (y, begins) ↦
              ground
                (arith, good, frozen, begins, same, deliver_result-deliveries w t result begun.0)
        ]
      ]
    ]

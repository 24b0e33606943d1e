-- ===== src/Runner/Concluded.antt =====
-- core/execution/runner.go: the end of an execution that Codex has completed.
use codex_link_clawbot.Prelude.{
  max, Fallible-cases, Fallible, ℕ, ◌≤◌, ◌<◌, ◌≡◌, refl, inl, inr, true, false, some, arith,
}
use codex_link_clawbot.Text.{Text, text, len, trim_space}
use codex_link_clawbot.Request.Types.{
  max_result_reply_bytes, running, failed, interrupted, Task, DeliveryOutcome, pending,
  explicit_failure, ambiguous, DeliveryReceipt, Result, Error,
}
use codex_link_clawbot.Request.Index.{find_task_locked, find}
use codex_link_clawbot.Request.Storage.{Store}
use codex_link_clawbot.Request.Delivery.{complete_execution, begin_delivery}
use codex_link_clawbot.Request.Delivery.Checkpoint.{complete_execution-Completed, Completed}
use codex_link_clawbot.Request.Receipts.{record_delivery}
use codex_link_clawbot.Runner.{
  use_requests, send, busy_or, fail, freeze_reply, defer_outcome, deliver_result, conclude,
  delivers, Run, Outside, Stop,
}
use codex_link_clawbot.Runner.Kept.{
  moved-IsKept, finish-IsKept, freeze_result-IsKept, begin_delivery-IsKept, record_delivery-IsKept,
  IsKept,
}

Completed-IsKept :
    (owner id : Text) (at : ℕ) (s : Store)
    → trim_space owner ≡ owner
    → trim_space id ≡ id
    → 0 < at
    → Completed at owner id s
    → IsKept owner id s
unfolding find
Completed-IsKept owner id at s trimmed trimmed_id positive done = record {
  task = done.task;
  found = ground (arith, trimmed, trimmed_id, done.found);
  complete = ground (arith, done.complete);
  state = inl done.active;
}

fail-IsKept :
    (w : Outside) (t : Task) (why : Stop) (run : Run)
    → IsKept t.owner_id t.id run.requests
    → IsKept t.owner_id t.id (fail w t why run).requests
unfolding fail
fail-IsKept w t why run kept =
    finish-IsKept (w.world run.calls) t.owner_id t.id failed (busy_or why.is_busy why.reason)
      run.requests kept

freeze_reply-IsKept :
    (w : Outside) (t : Task) (reply : Text) (run : Run)
    → IsKept t.owner_id t.id run.requests
    → IsKept t.owner_id t.id (freeze_reply w t.owner_id t.id reply run).0.requests
unfolding freeze_reply
freeze_reply-IsKept w t reply run kept = elim (Fallible-cases (w.collect reply)) [
  | inr (e, bad) ↦ moved-IsKept (ground (arith, bad)) kept
  | inl (input, good) ↦ moved-IsKept (ground (arith, good)) (
      freeze_result-IsKept (w.world run.calls) w.freeze_file t.owner_id t.id input run.requests
        kept)
]

defer_outcome-requests :
    (o : DeliveryOutcome) (run : Run) → (defer_outcome o run).requests ≡ run.requests
unfolding defer_outcome
defer_outcome-requests pending run = refl
defer_outcome-requests DeliveryOutcome.succeeded run = refl
defer_outcome-requests explicit_failure run = refl
defer_outcome-requests ambiguous run = refl
defer_outcome-requests (DeliveryOutcome.other t) run = refl

deliver_result-IsKept :
    (w : Outside) (t : Task) (result : Result) (run : Run)
    → IsKept t.owner_id t.id run.requests
    → IsKept t.owner_id t.id (deliver_result w t result run).requests
unfolding deliver_result
deliver_result-IsKept w t result run kept =
    let receipt : DeliveryReceipt = record (w.deliver result) {
      attempted_at = max w.delivered_at result.frozen_at;
    } in
    let handed : Run = send (delivers result) run in
    let noted : Run × Fallible Error Result =
      use_requests w (λ world. record_delivery world t.owner_id t.id receipt true) handed in
    let after : IsKept t.owner_id t.id noted.0.requests =
      record_delivery-IsKept (w.world run.calls) t.owner_id t.id receipt run.requests kept in
    elim (Fallible-cases noted.1) [
      | inr (e, bad) ↦ moved-IsKept (ground (arith, bad)) (
          finish-IsKept (w.world noted.0.calls) t.owner_id t.id interrupted
            (text "delivery_ambiguous") noted.0.requests after)
      | inl (x, good) ↦
          moved-IsKept (ground (arith, good, defer_outcome-requests receipt.outcome noted.0)) after
    ]

-- What comes after Codex has completed an execution never loses it: after a checkpoint, saved or
-- not, of a running request with a reply within the limit, whatever the saving, the freezing, the
-- delivery and the receipts answer, the request is there, its execution is complete, and it has not
-- failed and is neither cancelled nor interrupted.
pub conclude-IsKept :
    (w : Outside) (t held : Task) (reply : Text) (run : Run)
    → trim_space t.owner_id ≡ t.owner_id
    → trim_space t.id ≡ t.id
    → find_task_locked run.requests.index t.owner_id t.id ≡ some held
    → held.state ≡ running
    → len reply ≤ max_result_reply_bytes
    → 0 < (w.world run.calls).now
    → IsKept t.owner_id t.id (conclude w t reply run).requests
unfolding conclude
conclude-IsKept w t held reply run trimmed trimmed_id found runs fits clock =
    let owner : Text = t.owner_id in
    let kept : Run × Fallible Error Task =
      use_requests w (λ world. complete_execution world owner t.id reply) run in
    let after : IsKept owner t.id kept.0.requests =
      Completed-IsKept owner t.id (max (w.world run.calls).now held.started_at) kept.0.requests
        trimmed trimmed_id (ground (arith, clock))
        (complete_execution-Completed (w.world run.calls) owner t.id reply run.requests held trimmed
          trimmed_id found runs fits) in
    elim (Fallible-cases kept.1) [
      | inr (e, bad) ↦ moved-IsKept (ground (arith, bad)) (
          fail-IsKept w t (record { reason = text "result_freeze_failed"; is_busy = false }) kept.0
            after)
      | inl (x, good) ↦
          let archived : Run × Fallible Error Result = freeze_reply w owner t.id reply kept.0 in
          let still = freeze_reply-IsKept w t reply kept.0 after in
          elim (Fallible-cases archived.1) [
            | inr (e, bad) ↦ moved-IsKept (ground (arith, good, bad)) (
                fail-IsKept w t (record { reason = text "result_freeze_failed"; is_busy = false })
                  archived.0 still)
            | inl (result, frozen) ↦
                let begun : Run × Fallible Error Task =
                  use_requests w (λ world. begin_delivery world owner t.id) archived.0 in
                let sending : IsKept owner t.id begun.0.requests =
                  begin_delivery-IsKept (w.world archived.0.calls) owner t.id archived.0.requests
                    still in
                elim (Fallible-cases begun.1) [
                  | inr (e, bad) ↦ moved-IsKept (ground (arith, good, frozen, bad)) (
                      fail-IsKept w t (record { reason = text "delivery_failed"; is_busy = false })
                        begun.0 sending)
                  | inl (y, begins) ↦
                      moved-IsKept (ground (arith, good, frozen, begins))
                        (deliver_result-IsKept w t result begun.0 sending)
                ]
          ]
    ]

-- ===== src/Request/Receipts.antt =====
-- core/request/result.go and recovery.go: the receipts of a result's deliveries.
pub mod Repeat
use codex_link_clawbot.Prelude.{
  leb, ◌==◌, max, if◌then◌else◌, Fallible, ok, err, length, any, Bool, true, false, ◌&&◌, ◌||◌, not,
  Option, none, some, List, [], ◌∷◌, ◌++◌,
}
use codex_link_clawbot.Text.{Text, text_eq, is_empty}
use codex_link_clawbot.Request.Types.{
  state_eq, is_pending, reason_delivery_ambiguous, delivering, succeeded, ambiguous,
  DeliveryReceipt, Result, Error, result_unavailable, receipt_incomplete, operation_unknown,
  invalid_operation, not_redeliverable, attempt_limit, not_initial_delivery,
}
use codex_link_clawbot.Request.Valid.{validate_result, Libraries}
use codex_link_clawbot.Request.Index.{find_task_locked, find}
use codex_link_clawbot.Request.Storage.{update_tables, Store, World}
use codex_link_clawbot.Request.Lifecycle.{terminal_stage, or_fail, transition_locked}
use codex_link_clawbot.Request.Delivery.{save_receipts, read_result, load_result, result_is_kept}

-- The entry of the named operation is overwritten where it stands.
unfoldable pub replace_attempt :
    DeliveryReceipt → List DeliveryReceipt → Option (List DeliveryReceipt)
replace_attempt r [] = none
replace_attempt r (a ∷ rest) =
    let later = replace_attempt r rest in
    if text_eq a.operation_id r.operation_id
    then some (r ∷ rest)
    else elim later [ none ↦ none | some l ↦ some (a ∷ l) ]

-- The attempts and the current receipt after a delivery.
unfoldable pub note_receipt : Libraries → DeliveryReceipt → Result → Fallible Error Result
unfolding replace_attempt is_pending is_empty
note_receipt lib receipt r =
    if is_pending receipt.outcome || receipt.attempted_at == 0
    then err receipt_incomplete
    else if is_empty receipt.operation_id
    then ok (record r {
      receipt = receipt;
      attempts = elim r.attempts [ [] ↦ receipt ∷ [] | a ∷ rest ↦ a ∷ rest ];
    })
    else elim (lib.parse_uuid receipt.operation_id) [
      | none ↦ err invalid_operation
      | some operation ↦
          let named = record receipt { operation_id = operation } in
          elim (replace_attempt named r.attempts) [
            | none ↦ err operation_unknown
            | some attempts ↦ ok (record r { receipt = named; attempts = attempts })
          ]
    ]

abbrev pub finish_save : {A : Type 0} → Store → A → Fallible Error Store → Store × Fallible Error A
finish_save s a (ok saved) = (saved, ok a)
finish_save s a (err e) = (s, err e)

-- `recordDelivery`
unfoldable pub record_delivery :
    World → Text → Text → DeliveryReceipt → Bool → Store → Store × Fallible Error Result
unfolding find note_receipt read_result validate_result transition_locked save_receipts state_eq
    is_empty terminal_stage
record_delivery w owner id receipt complete s = elim (find s.index owner id) [
  | none ↦ (s, err result_unavailable)
  | some t ↦
      if not (result_is_kept w.now t)
      then (s, err result_unavailable)
      else if complete && (not (state_eq t.state delivering) || not (is_empty receipt.operation_id))
      then (s, err not_initial_delivery)
      else or_fail s (read_result w.lib s.tables t) λ r.
        or_fail s (note_receipt w.lib receipt r) λ noted.
          or_fail s (validate_result w.lib noted t) λ u. elim complete [
            | true ↦
                let (s', done) =
                  transition_locked w (save_receipts t.id noted) owner id succeeded
                    (terminal_stage succeeded) [] s in
                elim done [ err e ↦ (s', err e) | ok x ↦ (s', ok noted) ]
            | false ↦ finish_save s noted (update_tables w.commit (save_receipts t.id noted) s)
          ]
]

unfoldable pub has_attempt : Text → List DeliveryReceipt → Bool
has_attempt operation = any (λ a. text_eq a.operation_id operation)

-- `BeginRedelivery`: the operation is on record before anything is sent.
unfoldable pub begin_redelivery :
    World → Text → Text → Text → Store → Store × Fallible Error (Result × Bool)
unfolding find_task_locked load_result has_attempt save_receipts state_eq
begin_redelivery w owner id operation_id s = elim (w.lib.parse_uuid operation_id) [
  | none ↦ (s, err invalid_operation)
  | some operation ↦ elim (find_task_locked s.index owner id) [
    | none ↦ (s, err not_redeliverable)
    | some t ↦
        if not (state_eq t.state succeeded) || leb t.result_expires_at w.now
        then (s, err not_redeliverable)
        else or_fail s (load_result w s.tables t) λ r.
          if has_attempt operation r.attempts
          then (s, ok (r, true))
          else if leb 50 (length r.attempts)
          then (s, err attempt_limit)
          else let receipt : DeliveryReceipt = record {
            operation_id = operation;
            outcome = ambiguous;
            attempted_at = max w.now r.frozen_at;
            media_sent = 0;
            text_sent = false;
            failure_code = reason_delivery_ambiguous;
          } in
            let noted = record r { attempts = r.attempts ++ (receipt ∷ []); receipt = receipt } in
            finish_save s (noted, false) (update_tables w.commit (save_receipts t.id noted) s)
  ]
]

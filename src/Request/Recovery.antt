-- ===== src/Request/Recovery.antt =====
-- core/request/lifecycle.go and store.go: the recovery of the store after a restart.
-- The removal of stray directories below the store's root is left out.
pub mod Ended
use codex_link_clawbot.Prelude.{
  ltb, leb, ◌==◌, max, if◌then◌else◌, ◌>>=◌, ◌>>◌, reject_if, Fallible, ok, err, any, ℕ, ◌+◌, true,
  false, ◌&&◌, ◌||◌, not, none, some, List, [], ◌∷◌, ◌++◌,
}
use codex_link_clawbot.Text.{Text, text, len}
use codex_link_clawbot.Map.{Map, lookup}
use codex_link_clawbot.Request.Types.{
  state_eq, terminal, max_task_bytes, payload_retention, result_retention, is_pending,
  reason_restart_running, reason_restart_delivery, reason_result_freeze_failed, State, delivering,
  succeeded, interrupted, Task, ambiguous, DeliveryReceipt, Result, Error, files_failed,
  input_unavailable, recovery_failed,
}
use codex_link_clawbot.Request.Valid.{validate_request}
use codex_link_clawbot.Request.Index.{is_active}
use codex_link_clawbot.Request.Storage.{no_extra, save_locked, Tables, Store, World}
use codex_link_clawbot.Request.Lifecycle.{stage_result_pending}
use codex_link_clawbot.Request.Retention.{has_payload, all_tasks, result_size, cleanup}
use codex_link_clawbot.Request.Delivery.{save_receipts, read_result, load_result}

abbrev pub restart_receipt : ℕ → Result → DeliveryReceipt
restart_receipt now r = record {
  operation_id = [];
  outcome = ambiguous;
  attempted_at = max now r.frozen_at;
  media_sent = 0;
  text_sent = false;
  failure_code = reason_restart_delivery;
}

-- A delivery that a saved success had not confirmed is noted as ambiguous.
unfoldable pub recover_receipt : World → Task → Tables → Fallible Error Tables
unfolding read_result save_receipts is_pending state_eq
recover_receipt w t tables =
    if state_eq t.state succeeded && not t.archive_failed && ltb w.now t.result_expires_at
    then (read_result w.lib tables t >>= λ r.
        if is_pending r.receipt.outcome
        then save_receipts t.id
            (record r {
              receipt = restart_receipt w.now r;
              attempts = r.attempts ++ (restart_receipt w.now r ∷ []);
            })
            tables
        else ok tables)
    else ok tables

-- The completion checkpoint, which was saved before the index was.
unfoldable pub recover_completion : Tables → Task → Task
unfolding terminal
recover_completion tables t =
    if t.execution_completed_at == 0 && not (terminal t.state)
    then elim (lookup t.id tables.completions) [
      | none ↦ t
      | some c ↦
          if c.version == 1 && leb t.started_at c.at
          then record t {
            execution_completed_at = c.at;
            result_expires_at = c.at + result_retention;
            archive_failed = true;
            result_bytes = max_task_bytes + len c.reply;
          }
          else t
    ]
    else t

abbrev pub end_at : ℕ → State → Text → Text → Task → Task
end_at now st stage reason t =
    let finished = max now t.started_at in
    record t {
      state = st;
      stage = stage;
      reason = reason;
      finished_at = finished;
      payload_expires_at = finished + payload_retention;
    }

-- The receipt of a result that is found at the restart of an active task.
unfoldable pub settle_receipt : World → Text → Result → Tables → Fallible Error Tables
unfolding save_receipts is_pending
settle_receipt w id r tables =
    if is_pending r.receipt.outcome
    then save_receipts id (record r { receipt = restart_receipt w.now r }) tables
    else ok tables

-- The end of an active task: its result is there, or only the fact of its completion, or neither.
unfoldable pub recover_active : World → Tables → Task → Fallible Error (Task × Tables)
unfolding load_result settle_receipt result_size state_eq text
recover_active w tables t = elim (load_result w tables t) [
  | ok r ↦ settle_receipt w t.id r tables >>= λ kept. ok (
    end_at w.now succeeded (text "执行完成") [] (record t {
      execution_completed_at = r.frozen_at;
      result_expires_at = r.frozen_at + result_retention;
      result_bytes = result_size r;
      archive_failed = false;
    }),
    kept,
  )
  | err e ↦
      if ltb 0 t.execution_completed_at && t.archive_failed
      then ok (end_at w.now succeeded stage_result_pending reason_result_freeze_failed t, tables)
      else if ltb 0 t.execution_completed_at || state_eq t.state delivering
      then err recovery_failed
      else ok (end_at w.now interrupted (text "执行中断，等待处理") reason_restart_running t, tables)
]

-- `readInput`, and the check of the task's directory.
unfoldable pub validate_payload_root : World → Tables → Task → Fallible Error (Unit {0})
unfolding validate_request
validate_payload_root w tables t = do
  reject_if (not (w.root_ok t.id)) files_failed
  elim (lookup t.id tables.inputs) [
    | none ↦ err input_unavailable
    | some r ↦ validate_request w.lib r
  ]

-- One round of the loop of `recoverLocked`. The transactions of a recovery commit here: a failed
-- one ends the start of the store.
unfoldable pub recover_task : World → Tables → Task → Fallible Error (Task × Tables)
unfolding recover_receipt recover_completion recover_active validate_payload_root has_payload
    is_active
recover_task w tables t = do
  noted ← recover_receipt w t tables
  let known = recover_completion noted t
  ended ← if is_active known.state then recover_active w noted known else ok (known, noted)
  if has_payload ended.0 w.now
      then (validate_payload_root w ended.1 ended.0 >>= λ u. ok ended)
      else ok ended

unfoldable pub recover_tasks : World → Tables → List Task → Fallible Error (List Task × Tables)
unfolding recover_task
recover_tasks w tables [] = ok ([], tables)
recover_tasks w tables (t ∷ ts) = do
  first ← recover_task w tables t
  rest ← recover_tasks w first.1 ts
  ok (first.0 ∷ rest.0, rest.1)

unfoldable pub recover_owners :
    World → Tables → Map (List Task) → Fallible Error (Map (List Task) × Tables)
unfolding recover_tasks
recover_owners w tables [] = ok ([], tables)
recover_owners w tables ((owner, ts) ∷ rest) = do
  first ← recover_tasks w tables ts
  later ← recover_owners w first.1 rest
  ok ((owner, first.0) ∷ later.0, later.1)

-- `recoverLocked` and the save after it: `newStore` past `loadState`.
unfoldable pub recover : World → Store → Fallible Error Store
unfolding recover_owners cleanup
recover w s = do
  recovered ← recover_owners w s.tables s.index.owners
  let changed = any (λ t. is_active t.state) (all_tasks s.index.owners)
  let ended = record s { index = record (s.index) { owners = recovered.0 }; tables = recovered.1 }
  let (swept, done) = cleanup w ended
  done >>= λ u. if changed then save_locked w.commit no_extra swept else ok swept

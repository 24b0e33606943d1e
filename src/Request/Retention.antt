-- ===== src/Request/Retention.antt =====
-- core/request/lifecycle.go, store.go, recovery.go and completion.go: what is kept, for how long,
-- and the room that it takes.
pub mod Sweep
use codex_link_clawbot.Prelude.{
  ltb, leb, ◌==◌, if◌then◌else◌, ◌>>=◌, ◌>>◌, reject_if, Fallible, ok, err, length, filter, sum_of,
  ℕ, suc, ◌+◌, Bool, true, false, ◌&&◌, ◌||◌, not, List, [], ◌∷◌, ◌++◌, map,
}
use codex_link_clawbot.Text.{Text, text, len}
use codex_link_clawbot.Map.{Map, delete}
use codex_link_clawbot.Request.Types.{
  terminal, max_task_bytes, max_result_reply_bytes, history_retention, Task, Rejection,
  ClearedReceipt, Index, StartInput, Result, Error, files_failed,
}
use codex_link_clawbot.Request.Valid.{attached_bytes, artifact_bytes}
use codex_link_clawbot.Request.Index.{is_active}
use codex_link_clawbot.Request.Storage.{Extra, no_extra, save_locked, update_tables, Store, World}
use codex_link_clawbot.Request.Lifecycle.{with_tasks}

-- `taskHasPayload`
unfoldable pub has_payload : Task → ℕ → Bool
unfolding terminal
has_payload t now = not (terminal t.state) || ltb now t.payload_expires_at

-- The tasks of all owners.
unfoldable pub all_tasks : Map (List Task) → List Task
all_tasks [] = []
all_tasks ((owner, ts) ∷ rest) = ts ++ all_tasks rest

-- `payloadBytesLocked`
unfoldable pub payload_bytes_locked : ℕ → Index → ℕ
unfolding all_tasks has_payload
payload_bytes_locked now i =
    sum_of (λ t. if has_payload t now then t.payload_bytes else 0) (all_tasks i.owners)

abbrev pub max_result_reservation : ℕ
max_result_reservation = max_task_bytes + max_result_reply_bytes

-- `resultReservation`: an execution that is not complete holds the worst case.
unfoldable pub result_reservation : ℕ → Task → ℕ
unfolding terminal
result_reservation now t =
    if not (terminal t.state) && t.execution_completed_at == 0
    then max_result_reservation
    else if ltb now t.result_expires_at
    then t.result_bytes
    else 0

-- `resultBytesLocked`
unfoldable pub result_bytes_locked : ℕ → Index → ℕ
unfolding all_tasks result_reservation
result_bytes_locked now i = sum_of (result_reservation now) (all_tasks i.owners)

-- `resultSize`
unfoldable pub result_size : Result → ℕ
result_size r = len r.reply + artifact_bytes r.artifacts

-- `inputPayloadBytes`
unfoldable pub input_payload_bytes : StartInput → ℕ
input_payload_bytes input =
    len input.text
    + len input.context_token
    + length input.source_data
    + (if ltb 0 (length input.source_data) then max_task_bytes else 0)
    + attached_bytes input.images
    + attached_bytes input.files

-- `SELECT id FROM requests WHERE state NOT IN ('running','delivering') AND …<=?`
unfoldable pub ids_where : (Task → Bool) → Map Task → List Text
ids_where p rows = map (λ e. e.0) (filter (λ e. p e.1) rows)

unfoldable pub delete_all : {V : Type 0} → List Text → Map V → Map V
delete_all [] m = m
delete_all (k ∷ ks) m = delete_all ks (delete k m)

abbrev pub input_expired : ℕ → Task → Bool
input_expired now t = not (is_active t.state) && leb t.payload_expires_at now

abbrev pub result_expired : ℕ → Task → Bool
result_expired now t = not (is_active t.state) && leb t.result_expires_at now

-- The transaction that deletes expired inputs, results and completions.
unfoldable pub expire_rows : ℕ → Extra
unfolding ids_where delete_all
expire_rows now t = ok (record t {
  inputs = delete_all (ids_where (input_expired now) t.requests) t.inputs;
  completions = delete_all (ids_where (result_expired now) t.requests) t.completions;
  results = delete_all (ids_where (result_expired now) t.requests) t.results;
})

-- `receipt.At <= now-historyRetention`, with `int64` subtraction: no receipt is older than the
-- clock's first 30 days.
unfoldable pub is_stale : ℕ → ℕ → Bool
is_stale now at = leb (at + history_retention) now

abbrev pub fresh : {V : Type 0} → (V → ℕ) → ℕ → Map V → Map V
fresh at now m = filter (λ e. not (is_stale now (at e.1))) m

abbrev pub with_receipts : Map ClearedReceipt → Map Rejection → Store → Store
with_receipts cleared rejected s = record s {
  index = record (s.index) { cleared = cleared; rejected = rejected };
}

-- The second part of the sweep: old receipts go, and come back when the save fails.
unfoldable pub sweep_receipts : World → Store → Store × Fallible Error (Unit {0})
sweep_receipts w s =
    let cleared = fresh (λ (r : ClearedReceipt). r.at) w.now s.index.cleared in
    let rejected = fresh (λ (r : Rejection). r.at) w.now s.index.rejected in
    let swept = with_receipts cleared rejected s in
    if not (length s.index.cleared == length cleared)
      || not (length s.index.rejected == length rejected)
    then elim (save_locked (w.sweep 1) no_extra swept) [
      | ok saved ↦ (saved, ok tt)
      | err e ↦ (with_receipts s.index.cleared s.index.rejected swept, err e)
    ]
    else (swept, ok tt)

-- A task that the sweep drops from the history.
unfoldable pub is_history_over : ℕ → Task → Bool
unfolding terminal
is_history_over now t = terminal t.state && leb (t.finished_at + history_retention) now

-- Whether the sweep has files of the task to remove.
abbrev pub has_files_to_remove : ℕ → Task → Bool
has_files_to_remove now t =
    terminal t.state
    && (leb t.payload_expires_at now || leb t.result_expires_at now || is_history_over now t)

-- The loop over one owner's tasks: the files that can go are removed, and what is kept is returned.
unfoldable pub kept_tasks : World → List Task → Fallible Error (List Task)
unfolding is_history_over
kept_tasks w [] = ok []
kept_tasks w (t ∷ ts) = do
  reject_if (has_files_to_remove w.now t && not (w.removable t.id)) files_failed
  kept ← kept_tasks w ts
  ok (if is_history_over w.now t then kept else t ∷ kept)

-- The loop over the owners; `k` numbers the transactions.
unfoldable pub sweep_owners :
    World → ℕ → Map (List Task) → Store → Store × Fallible Error (Unit {0})
unfolding kept_tasks
sweep_owners w k [] s = (s, ok tt)
sweep_owners w k ((owner, tasks) ∷ rest) s = elim (kept_tasks w tasks) [
  | err e ↦ (s, err e)
  | ok kept ↦ elim (length kept == length tasks) [
    | true ↦ sweep_owners w (suc k) rest s
    | false ↦ elim (save_locked (w.sweep k) no_extra (with_tasks owner kept s)) [
      | ok saved ↦ sweep_owners w (suc k) rest saved
      | err e ↦ (with_tasks owner tasks (with_tasks owner kept s), err e)
    ]
  ]
]

-- `cleanupExpiredPayloadsLocked`, and `CleanupExpired` under the lock.
unfoldable pub cleanup : World → Store → Store × Fallible Error (Unit {0})
unfolding expire_rows sweep_receipts sweep_owners
cleanup w s = elim (update_tables (w.sweep 0) (expire_rows w.now) s) [
  | err e ↦ (s, err e)
  | ok expired ↦
      let (swept, done) = sweep_receipts w expired in
      elim done [ err e ↦ (swept, err e) | ok u ↦ sweep_owners w 2 swept.index.owners swept ]
]

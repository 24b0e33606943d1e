-- ===== src/Request/Delivery.antt =====
-- core/request/completion.go, result.go and recovery.go: the completion of an execution, its
-- frozen result, and the receipts of its delivery.
pub mod Checkpoint
pub mod Bounds
use codex_link_clawbot.Prelude.{
  ltb, leb, ◌==◌, max, if◌then◌else◌, ◌>>=◌, ◌>>◌, reject_if, Fallible, ok, err, length, drop, all,
  ℕ, ◌+◌, ◌-◌, Bool, true, false, ◌&&◌, ◌||◌, not, none, some, List, [], ◌∷◌, ◌++◌, map,
}
use codex_link_clawbot.Text.{Text, text, text_eq, len}
use codex_link_clawbot.Map.{lookup, insert, delete}
use codex_link_clawbot.Request.Types.{
  state_eq, result_version, max_result_store_bytes, max_task_bytes, max_result_reply_bytes,
  max_result_artifacts, max_result_urls, result_retention, running, delivering, succeeded, Task,
  pending, DeliveryReceipt, ResultArtifact, Result, Completion, Error, invalid_result, not_running,
  not_completable, reply_limit, result_limits, result_unavailable, result_frozen, result_store_full,
  storage_failed, files_failed,
}
use codex_link_clawbot.Request.Valid.{is_some, validate_result, Libraries}
use codex_link_clawbot.Request.Index.{member, tasks_of, find_task_locked, find}
use codex_link_clawbot.Request.Storage.{Extra, no_extra, Tables, Store, World}
use codex_link_clawbot.Request.Lifecycle.{
  stage_result_pending, with_tasks, transition_locked, update_task_locked,
}
use codex_link_clawbot.Request.Retention.{result_reservation, result_bytes_locked, result_size}

-- `saveReceipts`: the rows at the positions of the attempts are put, and others stay. Without a
-- row in `results` the foreign key refuses them.
unfoldable pub save_receipts : Text → Result → Extra
save_receipts id r t = elim (lookup id t.results) [
  | none ↦ err storage_failed
  | some old ↦
      let row = record old {
        receipt = r.receipt;
        attempts = r.attempts ++ drop (length r.attempts) old.attempts;
      } in
      ok (record t { results = insert id row t.results })
]

-- `readResult(task, false)`
unfoldable pub read_result : Libraries → Tables → Task → Fallible Error Result
unfolding validate_result
read_result lib tables t = elim (lookup t.id tables.results) [
  | none ↦ err result_unavailable
  | some r ↦ validate_result lib r t >>= λ u. ok r
]

-- `loadResult`, which also opens each artifact.
unfoldable pub load_result : World → Tables → Task → Fallible Error Result
unfolding read_result
load_result w tables t = do
  r ← read_result w.lib tables t
  reject_if (not (all (w.artifact_ok t.id) r.artifacts)) files_failed
  ok r

-- `LoadResult` and `InspectResult`
abbrev pub result_is_kept : ℕ → Task → Bool
result_is_kept now t = not (t.execution_completed_at == 0) && ltb now t.result_expires_at

unfoldable pub load_result_of : World → Text → Text → Store → Fallible Error Result
unfolding load_result find
load_result_of w owner id s = elim (find s.index owner id) [
  | none ↦ err result_unavailable
  | some t ↦ if result_is_kept w.now t then load_result w s.tables t else err result_unavailable
]

unfoldable pub inspect_result : World → Text → Text → Store → Fallible Error Result
unfolding read_result find
inspect_result w owner id s = elim (find s.index owner id) [
  | none ↦ err result_unavailable
  | some t ↦ if result_is_kept w.now t then read_result w.lib s.tables t else err result_unavailable
]

-- The checkpoint that `CompleteExecution` writes on the task.
abbrev pub complete_at : ℕ → Text → Text → Task → Task
complete_at at reply stage t = record t {
  execution_completed_at = at;
  result_expires_at = at + result_retention;
  archive_failed = true;
  result_bytes = max_task_bytes + len reply;
  stage = stage;
}

unfoldable pub put_completion : Text → Completion → Extra
put_completion id c t = ok (record t { completions = insert id c t.completions })

abbrev pub overwrite : Text → Task → List Task → List Task
overwrite id new ts = map (λ t. if text_eq t.id id then new else t) ts

-- `CompleteExecution`. When the save fails the completion stays in memory, as the code means it to.
unfoldable pub complete_execution : World → Text → Text → Text → Store → Store × Fallible Error Task
unfolding update_task_locked find_task_locked put_completion state_eq text
complete_execution w owner id reply s = elim (find_task_locked s.index owner id) [
  | none ↦ (s, err not_completable)
  | some t ↦
      if not (state_eq t.state running)
      then (s, err not_completable)
      else if ltb max_result_reply_bytes (len reply)
      then (s, err reply_limit)
      else let at = max w.now t.started_at in
        let completed = complete_at at reply stage_result_pending t in
        let change : Task → Fallible Error Task =
          λ x. ok (complete_at at reply (text "执行完成，正在保存结果") x) in
        let row : Completion = record { version = 1; reply = reply; at = at } in
        let (s', done) = update_task_locked w (put_completion id row) owner id change s in
        elim done [
          | ok x ↦ (s', ok x)
          | err e ↦ (with_tasks owner (overwrite id completed (tasks_of owner s'.index)) s', err e)
        ]
]

-- `LoadCompletion`
unfoldable pub load_completion : ℕ → Text → Text → Store → Fallible Error Completion
unfolding find
load_completion now owner id s = elim (find s.index owner id) [
  | none ↦ err result_unavailable
  | some t ↦
      if leb t.result_expires_at now
      then err result_unavailable
      else elim (lookup id s.tables.completions) [
        | none ↦ err result_unavailable
        | some c ↦
            if not (c.version == 1) || ltb c.at t.started_at then err result_unavailable else ok c
      ]
]

pub record FreezeResultInput : Type 0 where
  pub reply : Text
  pub artifact_paths : List Text
  pub image_urls : List Text

-- The loop over the artifacts: no path twice, and the total within the limit. `freezeArtifact`
-- reads the file.
unfoldable pub freeze_artifacts :
    (Text → Fallible Error ResultArtifact)
    → List Text
    → ℕ
    → List Text
    → Fallible Error (List ResultArtifact)
unfolding member
freeze_artifacts freeze seen total [] = ok []
freeze_artifacts freeze seen total (path ∷ paths) = do
  a ← freeze path
  reject_if (member a.path seen) invalid_result
  reject_if (ltb max_task_bytes (total + a.size)) result_limits
  rest ← freeze_artifacts freeze (a.path ∷ seen) (total + a.size) paths
  ok (a ∷ rest)

abbrev pub no_receipt : DeliveryReceipt
no_receipt = record {
  operation_id = [];
  outcome = pending;
  attempted_at = 0;
  media_sent = 0;
  text_sent = false;
  failure_code = [];
}

-- What freezing writes on the task.
unfoldable pub set_frozen : Result → Task → Fallible Error Task
unfolding result_size state_eq text
set_frozen r t =
    let at = if t.execution_completed_at == 0 then r.frozen_at else t.execution_completed_at in
    let kept = record t {
      execution_completed_at = at;
      archive_failed = false;
      result_expires_at = at + result_retention;
      result_bytes = result_size r;
    } in
    ok (
      if state_eq t.state succeeded
      then (record kept { stage = text "执行完成，结果已保存"; reason = [] })
      else kept)

-- `saveResult`, and the completion row that it replaces.
unfoldable pub save_result : Text → Result → Extra
save_result id r t =
    ok (record t { results = insert id r t.results; completions = delete id t.completions })

abbrev pub can_freeze : Task → Bool
can_freeze t = state_eq t.state running || (state_eq t.state succeeded && t.archive_failed)

abbrev pub frozen_result : ℕ → Task → FreezeResultInput → List ResultArtifact → Result
frozen_result now t input artifacts = record {
  attempts = [];
  version = result_version;
  reply = input.reply;
  artifacts = artifacts;
  image_urls = input.image_urls;
  response_mode = t.response_mode;
  visual_style = t.visual_style;
  frozen_at = max now t.started_at;
  receipt = no_receipt;
}

-- The result that `FreezeResult` builds and checks for a task.
unfoldable pub build_result :
    World
    → (Text → Fallible Error ResultArtifact)
    → Task
    → FreezeResultInput
    → Store
    → Fallible Error Result
unfolding freeze_artifacts validate_result result_bytes_locked result_reservation result_size
build_result w freeze t input s = do
  reject_if (not (can_freeze t)) not_running
  reject_if
      (ltb max_result_reply_bytes (len input.reply)
        || ltb max_result_artifacts (length input.artifact_paths)
        || ltb max_result_urls (length input.image_urls))
      result_limits
  artifacts ← freeze_artifacts freeze [] 0 input.artifact_paths
  let r = frozen_result w.now t input artifacts
  validate_result w.lib r t
  reject_if
      (ltb max_result_store_bytes
        (result_bytes_locked w.now s.index - result_reservation w.now t + result_size r))
      result_store_full
  reject_if (is_some (lookup t.id s.tables.results)) result_frozen
  ok r

-- `FreezeResult`
unfoldable pub freeze_result :
    World
    → (Text → Fallible Error ResultArtifact)
    → Text
    → Text
    → FreezeResultInput
    → Store
    → Store × Fallible Error Result
unfolding build_result set_frozen save_result update_task_locked find
freeze_result w freeze owner id input s = elim (find s.index owner id) [
  | none ↦ (s, err not_running)
  | some t ↦ elim (build_result w freeze t input s) [
    | err e ↦ (s, err e)
    | ok r ↦
        let (s', done) = update_task_locked w (save_result t.id r) owner id (set_frozen r) s in
        elim done [ err e ↦ (s', err e) | ok x ↦ (s', ok r) ]
  ]
]

-- `BeginDelivery`
unfoldable pub begin_delivery : World → Text → Text → Store → Store × Fallible Error Task
unfolding load_result transition_locked find text state_eq
begin_delivery w owner id s = elim (find s.index owner id) [
  | none ↦ (s, err not_running)
  | some t ↦
      if not (state_eq t.state running)
      then (s, err not_running)
      else elim (load_result w s.tables t) [
        | err e ↦ (s, err e)
        | ok r ↦ transition_locked w no_extra owner id delivering (text "正在发送结果") [] s
      ]
]

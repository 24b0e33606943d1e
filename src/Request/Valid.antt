-- ===== src/Request/Valid.antt =====
-- core/request/model.go and result.go: the validation of inputs, tasks, requests and results.
-- json.Valid, uuid.Parse and url.Parse are parameters; the rest is written out.
use codex_link_clawbot.Prelude.{
  ltb, ◌==◌, if◌then◌else◌, ◌>>=◌, ◌>>◌, reject_if, Fallible, ok, err, length, any, sum_of, ℕ, ◌+◌,
  Bool, true, false, ◌&&◌, ◌||◌, not, Option, none, some, List, [], ◌∷◌,
}
use codex_link_clawbot.Text.{
  Text, text, text_eq, is_empty, len, valid_utf8, trim_space, contains_rune, contains_any,
  is_task_id, is_safe_id, is_reason, is_sha256, valid_single_line, valid_attachment_name,
  is_clean_below,
}
use codex_link_clawbot.Presentation.{valid_mode, valid_style, mode_eq, style_eq}
use codex_link_clawbot.Request.Types.{
  state_eq, valid_state, request_version, result_version, max_image_bytes, max_file_bytes,
  max_task_bytes, max_request_text_bytes, max_context_token_bytes, max_source_data_bytes,
  max_result_reply_bytes, max_result_artifacts, max_result_urls, valid_outcome, is_pending,
  is_delivered, State, running, delivering, failed, interrupted, cancelled, Task, Attachment,
  Request, InputAttachment, StartInput, DeliveryReceipt, ResultArtifact, Result, Error,
  invalid_start, invalid_identity, invalid_project, invalid_display, invalid_state, invalid_target,
  invalid_completion, inconsistent_completion, invalid_retention, invalid_timestamps,
  invalid_retry_source, invalid_attachments, invalid_phase_times, invalid_request, invalid_receipt,
  invalid_result, attempt_limit,
}

-- What the store asks of encoding/json, net/url and google/uuid. `parse_uuid` gives the
-- canonical form; `parse_url` gives the scheme and the host.
pub record Libraries : Type 0 where
  pub json_valid : List ℕ → Bool
  pub parse_uuid : Text → Option Text
  pub parse_url : Text → Option (Text × Text)

unfoldable pub is_some {ℓ} : {A : Type ℓ} → Option A → Bool
is_some none = false
is_some (some a) = true

-- A present value is refused when its test fails.
abbrev pub present_and_bad : Text → Bool → Bool
present_and_bad value good = not (is_empty value) && not good

unfoldable pub bad_owner : Text → Bool
bad_owner owner =
    is_empty (trim_space owner) || ltb 512 (len owner) || contains_any owner (13 ∷ 10 ∷ [])

-- The texts and source data of `validateStartInput` and `validateRequest`.
unfoldable pub bad_content : Libraries → Text → Text → List ℕ → Bool
bad_content lib body context_token source_data =
    not (valid_utf8 body)
    || contains_rune body 0
    || ltb max_source_data_bytes (length source_data)
    || (ltb 0 (length source_data) && not (lib.json_valid source_data))
    || ltb max_request_text_bytes (len body)
    || ltb max_context_token_bytes (len context_token)

unfoldable pub bad_input_attachment : ℕ → InputAttachment → Bool
bad_input_attachment max_bytes a =
    not (valid_attachment_name a.name)
    || not (valid_single_line a.content_type 128)
    || length a.content == 0
    || ltb max_bytes (length a.content)

abbrev pub attached_bytes : List InputAttachment → ℕ
attached_bytes = sum_of (λ a. length a.content)

-- `validateStartInput`
unfoldable pub validate_start_input : Libraries → StartInput → Fallible Error (Unit {0})
unfolding bad_owner bad_content bad_input_attachment
validate_start_input lib input = do
  reject_if (not (valid_single_line input.source_message_key 512)) invalid_start
  reject_if (bad_owner input.owner_id) invalid_start
  reject_if (not (is_safe_id input.project_id)) invalid_start
  reject_if (present_and_bad input.thread_id (valid_single_line input.thread_id 512)) invalid_start
  reject_if (not (valid_single_line input.summary 120)) invalid_start
  reject_if (bad_content lib input.text input.context_token input.source_data) invalid_start
  reject_if
      (is_empty (trim_space input.text) && length input.images == 0 && length input.files == 0)
      invalid_start
  reject_if (not (valid_mode input.response_mode) || not (valid_style input.visual_style))
      invalid_start
  reject_if (present_and_bad input.retry_of (is_task_id input.retry_of)) invalid_start
  reject_if (ltb 4 (length input.images) || ltb 8 (length input.files)) invalid_start
  reject_if (any (bad_input_attachment max_image_bytes) input.images) invalid_start
  reject_if (any (bad_input_attachment max_file_bytes) input.files) invalid_start
  reject_if (ltb max_task_bytes (attached_bytes input.images + attached_bytes input.files))
      invalid_start

unfoldable pub bad_identity : Task → Text → Bool
bad_identity t owner =
    not (is_task_id t.id)
    || not (text_eq t.owner_id owner)
    || not (valid_single_line t.source_message_key 512)

unfoldable pub bad_project : Task → Bool
bad_project t =
    not (is_safe_id t.project_id) || present_and_bad t.thread_id (valid_single_line t.thread_id 512)

unfoldable pub bad_display : Task → Bool
bad_display t =
    not (valid_single_line t.summary 120)
    || not (valid_single_line t.stage 120)
    || present_and_bad t.reason (is_reason t.reason)

unfoldable pub bad_state : Task → Bool
bad_state t =
    not (valid_state t.state)
    || not (valid_mode t.response_mode)
    || not (valid_style t.visual_style)

unfoldable pub bad_target : Task → Bool
bad_target t = present_and_bad t.target_id (valid_single_line t.target_id 64)

unfoldable pub bad_completion : Task → Bool
bad_completion t =
    present_and_bad t.turn_id (valid_single_line t.turn_id 512)
    || (t.archive_failed && t.execution_completed_at == 0)

unfoldable pub inconsistent : Task → Bool
inconsistent t =
    ltb 0 t.execution_completed_at
    && (ltb t.execution_completed_at t.started_at
        || state_eq t.state failed
        || state_eq t.state interrupted
        || state_eq t.state cancelled)

unfoldable pub bad_retention : Task → Bool
bad_retention t =
    (ltb 0 t.result_expires_at
      && (t.execution_completed_at == 0 || ltb t.result_expires_at t.execution_completed_at))
    || (ltb 0 t.result_bytes && t.result_expires_at == 0)

unfoldable pub bad_retry : Task → Bool
bad_retry t = present_and_bad t.retry_of (is_task_id t.retry_of)

unfoldable pub bad_attachments : Task → Bool
bad_attachments t =
    ltb 4 t.image_count
    || ltb 8 t.file_count
    || ltb
        (max_task_bytes + max_request_text_bytes + max_context_token_bytes + max_source_data_bytes)
        t.payload_bytes

-- The `switch task.State` that ends `validateTask`.
unfoldable pub phase_error : State → Task → Bool
phase_error running t =
    ltb t.started_at t.created_at || not (t.finished_at == 0) || not (t.payload_expires_at == 0)
phase_error delivering t =
    ltb t.started_at t.created_at || not (t.finished_at == 0) || not (t.payload_expires_at == 0)
phase_error cancelled t = ltb t.finished_at t.created_at || ltb t.payload_expires_at t.finished_at
phase_error (State.other s) t = false
phase_error _ t =
    ltb t.started_at t.created_at
    || ltb t.finished_at t.started_at
    || ltb t.payload_expires_at t.finished_at

-- `validateTask`
unfoldable pub validate_task : Task → Text → Fallible Error (Unit {0})
validate_task t owner = do
  reject_if (bad_identity t owner) invalid_identity
  reject_if (bad_project t) invalid_project
  reject_if (bad_display t) invalid_display
  reject_if (bad_state t) invalid_state
  reject_if (bad_target t) invalid_target
  reject_if (bad_completion t) invalid_completion
  reject_if (inconsistent t) inconsistent_completion
  reject_if (bad_retention t) invalid_retention
  reject_if (t.created_at == 0) invalid_timestamps
  reject_if (bad_retry t) invalid_retry_source
  reject_if (bad_attachments t) invalid_attachments
  reject_if (phase_error t.state t) invalid_phase_times

unfoldable pub bad_stored_attachment : ℕ → Attachment → Bool
bad_stored_attachment max_bytes a =
    not (valid_attachment_name a.name)
    || not (valid_single_line a.content_type 128)
    || a.size == 0
    || ltb max_bytes a.size
    || not (is_sha256 a.sha256)
    || not (is_clean_below (text "input") a.path)

-- A loop that refuses the first bad attachment or path that was seen before.
unfoldable pub scan_attachments :
    (Attachment → Bool) → List Text → List Attachment → Fallible Error (List Text)
scan_attachments bad seen [] = ok seen
scan_attachments bad seen (a ∷ rest) =
    let later = scan_attachments bad (a.path ∷ seen) rest in
    if bad a || any (λ p. text_eq p a.path) seen then err invalid_request else later

-- `validateRequest`
unfoldable pub validate_request : Libraries → Request → Fallible Error (Unit {0})
unfolding bad_content bad_stored_attachment scan_attachments
validate_request lib r = do
  reject_if (not (r.version == request_version) || not (valid_single_line r.source_message_key 512))
      invalid_request
  reject_if (bad_content lib r.text r.context_token r.source_data) invalid_request
  reject_if (is_empty (trim_space r.text) && length r.images == 0 && length r.files == 0)
      invalid_request
  reject_if (ltb 4 (length r.images) || ltb 8 (length r.files)) invalid_request
  seen ← scan_attachments (bad_stored_attachment max_image_bytes) [] r.images
  all_seen ← scan_attachments (bad_stored_attachment max_file_bytes) seen r.files
  ok tt

-- `validateReceipt`
unfoldable pub validate_receipt : Libraries → DeliveryReceipt → ℕ → Fallible Error (Unit {0})
validate_receipt lib r frozen_at = do
  reject_if (not (valid_outcome r.outcome)) invalid_receipt
  reject_if (present_and_bad r.operation_id (is_some (lib.parse_uuid r.operation_id)))
      invalid_receipt
  reject_if
      (ltb (max_result_artifacts + max_result_urls + 16) r.media_sent
        || present_and_bad r.failure_code (is_reason r.failure_code))
      invalid_receipt
  reject_if
      (if is_pending r.outcome
        then not (r.attempted_at == 0)
          || not (r.media_sent == 0)
          || r.text_sent
          || not (is_empty r.failure_code)
        else ltb r.attempted_at frozen_at)
      invalid_receipt
  reject_if
      ((is_delivered r.outcome && not (is_empty r.failure_code))
        || (not (is_delivered r.outcome) && not (is_pending r.outcome) && is_empty r.failure_code))
      invalid_receipt

unfoldable pub bad_artifact : ResultArtifact → Bool
bad_artifact a =
    not (valid_attachment_name a.name)
    || a.size == 0
    || ltb max_file_bytes a.size
    || not (is_sha256 a.sha256)
    || not (is_clean_below (text "output") a.path)

unfoldable pub scan_artifacts : List Text → List ResultArtifact → Fallible Error (Unit {0})
unfolding bad_artifact
scan_artifacts seen [] = ok tt
scan_artifacts seen (a ∷ rest) =
    let later = scan_artifacts (a.path ∷ seen) rest in
    if bad_artifact a || any (λ p. text_eq p a.path) seen then err invalid_result else later

unfoldable pub bad_url : Libraries → Text → Bool
bad_url lib url = elim (lib.parse_url url) [
  | none ↦ true
  | some (scheme, host) ↦
      ltb 2048 (len url)
      || is_empty host
      || (not (text_eq scheme (text "http")) && not (text_eq scheme (text "https")))
]

unfoldable pub scan_attempts :
    Libraries → ℕ → List Text → List DeliveryReceipt → Fallible Error (Unit {0})
unfolding validate_receipt
scan_attempts lib frozen_at seen [] = ok tt
scan_attempts lib frozen_at seen (r ∷ rest) = do
  reject_if (any (λ o. text_eq o r.operation_id) seen) invalid_result
  reject_if (is_pending r.outcome) invalid_result
  validate_receipt lib r frozen_at
  scan_attempts lib frozen_at (r.operation_id ∷ seen) rest

abbrev pub artifact_bytes : List ResultArtifact → ℕ
artifact_bytes = sum_of (λ a. a.size)

-- `validateResult`
unfoldable pub validate_result : Libraries → Result → Task → Fallible Error (Unit {0})
unfolding scan_artifacts bad_url scan_attempts validate_receipt
validate_result lib r t = do
  reject_if (ltb 50 (length r.attempts)) attempt_limit
  reject_if
      (not (r.version == result_version)
        || ltb max_result_reply_bytes (len r.reply)
        || ltb max_result_artifacts (length r.artifacts)
        || ltb max_result_urls (length r.image_urls))
      invalid_result
  reject_if
      (not (mode_eq r.response_mode t.response_mode)
        || not (style_eq r.visual_style t.visual_style)
        || ltb r.frozen_at t.started_at
        || not (valid_outcome r.receipt.outcome))
      invalid_result
  reject_if (is_empty (trim_space r.reply) && length r.artifacts == 0 && length r.image_urls == 0)
      invalid_result
  scan_artifacts [] r.artifacts
  reject_if (ltb max_task_bytes (artifact_bytes r.artifacts)) invalid_result
  reject_if (any (bad_url lib) r.image_urls) invalid_result
  scan_attempts lib r.frozen_at [] r.attempts
  validate_receipt lib r.receipt r.frozen_at

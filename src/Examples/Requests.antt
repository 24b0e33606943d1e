-- ===== src/Examples/Requests.antt =====
-- core/request: examples of a request that is started, executed, delivered, removed and recovered.
use codex_link_clawbot.Prelude.{ok, err, ◌≡◌, refl, true, false, none, some, [], ◌∷◌}
use codex_link_clawbot.Text.{
  Text, text, text_eq, is_empty, len, valid_utf8, is_space, trim_left, trim_right, trim_space,
  contains_rune, contains_any, is_lower, is_digit, is_hex, after_prefix, has_prefix, is_task_id,
  is_safe_id, is_reason, is_sha256, valid_single_line, valid_attachment_name, split_path,
  is_plain_segment, is_clean_below,
}
use codex_link_clawbot.Map.{lookup, insert, delete, contains}
use codex_link_clawbot.Presentation.{valid_mode, valid_style, mode_eq, style_eq, normalize_style}
use codex_link_clawbot.Request.Types.{
  state_eq, valid_state, terminal, valid_outcome, is_pending, is_delivered,
  reason_delivery_ambiguous, reason_result_freeze_failed, succeeded, failed, cancelled, Task,
  DeliveryOutcome, ambiguous, DeliveryReceipt, Result, session_busy, storage_failed,
}
use codex_link_clawbot.Request.Valid.{
  is_some, present_and_bad, bad_owner, bad_content, bad_input_attachment, validate_start_input,
  bad_identity, bad_project, bad_display, bad_state, bad_target, bad_completion, inconsistent,
  bad_retention, bad_retry, bad_attachments, phase_error, validate_task, bad_stored_attachment,
  scan_attachments, validate_request, validate_receipt, bad_artifact, scan_artifacts, bad_url,
  scan_attempts, validate_result,
}
use codex_link_clawbot.Request.Index.{
  session_key, is_active, member, scan_task, scan_tasks, scan_owners, scan_cleared, scan_rejected,
  validate_index, find_task, replace_task, find_task_locked, find_source_in, find_by_source_locked,
  find, find_by_source, active_task,
}
use codex_link_clawbot.Request.Storage.{
  delete_missing, is_changed, put_changed, write_delta, cascade, insert_tasks, insert_owners,
  snapshot_index, write_index, no_extra, save_locked, update_tables, Store,
}
use codex_link_clawbot.Request.Retention.{
  has_payload, all_tasks, payload_bytes_locked, result_reservation, result_bytes_locked,
  result_size, input_payload_bytes, ids_where, delete_all, expire_rows, is_stale, sweep_receipts,
  is_history_over, kept_tasks, sweep_owners, cleanup,
}
use codex_link_clawbot.Request.Admission.{
  save_input, trim_input, reject_locked, session_holder, new_task, with_new_task, admit,
  refuse_busy, start_swept, start,
}
use codex_link_clawbot.Request.Lifecycle.{
  allowed_transition, terminal_stage, stage_result_pending, settle, may_move, enter, commit_tasks,
  locate, transition_locked, update_task_locked, set_stage, update_stage, set_thread, attach_thread,
  set_usage, attach_usage, set_turn, attach_turn, finish, Settled,
}
use codex_link_clawbot.Request.Release.{
  release, was_cleared, earlier, next_expiry_of, capacity_of, count_state, status, execution_status,
}
use codex_link_clawbot.Request.Delivery.{
  save_receipts, read_result, load_result, load_result_of, inspect_result, complete_at,
  put_completion, complete_execution, load_completion, freeze_artifacts, set_frozen, save_result,
  frozen_result, build_result, freeze_result, begin_delivery, FreezeResultInput,
}
use codex_link_clawbot.Request.Receipts.{
  replace_attempt, note_receipt, record_delivery, has_attempt, begin_redelivery,
}
use codex_link_clawbot.Request.Recovery.{
  recover_receipt, recover_completion, end_at, settle_receipt, recover_active,
  validate_payload_root, recover_task, recover_tasks, recover_owners, recover,
}
use codex_link_clawbot.Examples.{
  world_at, first_id, second_id, first_input, second_input, payload_of, staging_of, empty_index,
  empty_store, first_task, started_store,
}

abbrev pub owner : Text
owner = first_input.owner_id

abbrev pub reply : Text
reply = b'o' ∷ b'k' ∷ []

-- A second request of the same session is refused.
abbrev pub busy_store : Store
busy_store =
    (start_swept (world_at 150 true) (staging_of second_id second_input) second_input
      started_store).0

abbrev pub failed_store : Store
failed_store = (finish (world_at 200 true) owner first_id failed [] started_store).0

abbrev pub failed_task : Task
failed_task =
    enter 200 (record { state = failed; stage = terminal_stage failed; reason = [] }) first_task

abbrev pub released_store : Store
released_store = (release (world_at 300 true) owner first_id failed_store).0

abbrev pub completed_task : Task
completed_task = complete_at 150 reply (text "执行完成，正在保存结果") first_task

abbrev pub completed_store : Store
completed_store = (complete_execution (world_at 150 true) owner first_id reply started_store).0

abbrev pub result_input : FreezeResultInput
result_input = record { reply = reply; artifact_paths = []; image_urls = [] }

abbrev pub sent : DeliveryReceipt
sent = record {
  operation_id = [];
  outcome = DeliveryOutcome.succeeded;
  attempted_at = 180;
  media_sent = 0;
  text_sent = true;
  failure_code = [];
}

-- A request whose result was delivered.
abbrev pub sent_task : Task
sent_task = record first_task {
  state = succeeded;
  execution_completed_at = 150;
  result_expires_at = 1000;
  result_bytes = 2;
}

abbrev pub sent_result : Result
sent_result = record (frozen_result 160 first_task result_input []) {
  attempts = sent ∷ [];
  receipt = sent;
}

abbrev pub store_of : Task → Result → Store
store_of t r = record empty_store {
  index = record empty_index { owners = (owner, t ∷ []) ∷ [] };
  tables = record (empty_store.tables) { results = (t.id, r) ∷ [] };
}

abbrev pub operation : Text
operation = b'u' ∷ []

abbrev pub second_attempt : DeliveryReceipt
second_attempt = record {
  operation_id = operation;
  outcome = ambiguous;
  attempted_at = 190;
  media_sent = 0;
  text_sent = false;
  failure_code = reason_delivery_ambiguous;
}

abbrev pub resent_result : Result
resent_result = record sent_result {
  attempts = sent ∷ second_attempt ∷ [];
  receipt = second_attempt;
}

abbrev pub cancelled_lines : Settled
cancelled_lines = record { state = cancelled; stage = terminal_stage cancelled; reason = [] }

-- What the calls return.
pub starts :
    (start_swept (world_at 150 true) (staging_of second_id second_input) second_input started_store
      ≡ (busy_store, err session_busy))
    × (validate_index started_store.index ≡ ok tt)
    × (locate started_store.index owner first_id ≡ ok (first_task ∷ [], first_task))
    × (settle first_task cancelled (terminal_stage cancelled) [] ≡ ok cancelled_lines)
    × (may_move first_task cancelled ≡ true)
    × (valid_single_line (terminal_stage cancelled) 120 ≡ true)
    × (present_and_bad [] (is_reason []) ≡ false)
    × (contains second_input.source_message_key busy_store.index.rejected ≡ true)
    × (find_by_source_locked busy_store.index second_input.source_message_key ≡ none)
    × (find started_store.index owner first_id ≡ some first_task)
unfolding text text_eq is_empty len valid_utf8 is_space trim_left trim_right trim_space
    contains_rune contains_any is_lower is_digit is_hex after_prefix has_prefix is_task_id
    is_safe_id is_reason is_sha256 valid_single_line valid_attachment_name split_path
    is_plain_segment is_clean_below lookup insert delete contains state_eq valid_state terminal
    valid_outcome is_pending is_delivered is_some bad_owner bad_content bad_input_attachment
    validate_start_input bad_identity bad_project bad_display bad_state bad_target bad_completion
    inconsistent bad_retention bad_retry bad_attachments phase_error validate_task
    bad_stored_attachment scan_attachments validate_request validate_receipt bad_artifact
    scan_artifacts bad_url scan_attempts validate_result session_key is_active member scan_task
    scan_tasks scan_owners scan_cleared scan_rejected validate_index find_task replace_task
    find_task_locked find_source_in find_by_source_locked find find_by_source active_task
    delete_missing is_changed put_changed write_delta cascade insert_tasks insert_owners
    snapshot_index write_index save_locked update_tables has_payload all_tasks payload_bytes_locked
    result_reservation result_bytes_locked result_size input_payload_bytes ids_where delete_all
    expire_rows is_stale sweep_receipts is_history_over kept_tasks sweep_owners cleanup save_input
    trim_input reject_locked session_holder new_task admit refuse_busy start_swept start valid_mode
    valid_style mode_eq style_eq normalize_style allowed_transition terminal_stage settle may_move
    enter commit_tasks locate transition_locked update_task_locked set_stage update_stage set_thread
    attach_thread set_usage attach_usage set_turn attach_turn finish release was_cleared earlier
    next_expiry_of capacity_of count_state status execution_status save_receipts read_result
    load_result load_result_of inspect_result put_completion complete_execution load_completion
    freeze_artifacts set_frozen save_result build_result freeze_result begin_delivery
    replace_attempt note_receipt record_delivery has_attempt begin_redelivery recover_receipt
    recover_completion settle_receipt recover_active validate_payload_root recover_task
    recover_tasks recover_owners recover
starts = (refl, refl, refl, refl, refl, refl, refl, refl, refl, refl)

pub ends :
    (finish (world_at 200 true) owner first_id failed [] started_store
      ≡ (failed_store, ok failed_task))
    × (transition_locked
          (world_at 200 true)
          no_extra
          owner
          first_id
          failed
          (terminal_stage failed)
          []
          started_store
        ≡ (failed_store, ok failed_task))
    × (transition_locked
          (world_at 200 false)
          no_extra
          owner
          first_id
          failed
          (terminal_stage failed)
          []
          started_store
        ≡ (started_store, err storage_failed))
    × (find failed_store.index owner first_id ≡ some failed_task)
    × (find_task_locked failed_store.index owner first_id ≡ some failed_task)
    × (release (world_at 300 true) owner first_id failed_store ≡ (released_store, ok tt))
    × (release (world_at 300 false) owner first_id failed_store
        ≡ (failed_store, err storage_failed))
    × (lookup failed_task.source_message_key failed_store.index.cleared ≡ none)
unfolding text text_eq is_empty len valid_utf8 is_space trim_left trim_right trim_space
    contains_rune contains_any is_lower is_digit is_hex after_prefix has_prefix is_task_id
    is_safe_id is_reason is_sha256 valid_single_line valid_attachment_name split_path
    is_plain_segment is_clean_below lookup insert delete contains state_eq valid_state terminal
    valid_outcome is_pending is_delivered is_some bad_owner bad_content bad_input_attachment
    validate_start_input bad_identity bad_project bad_display bad_state bad_target bad_completion
    inconsistent bad_retention bad_retry bad_attachments phase_error validate_task
    bad_stored_attachment scan_attachments validate_request validate_receipt bad_artifact
    scan_artifacts bad_url scan_attempts validate_result session_key is_active member scan_task
    scan_tasks scan_owners scan_cleared scan_rejected validate_index find_task replace_task
    find_task_locked find_source_in find_by_source_locked find find_by_source active_task
    delete_missing is_changed put_changed write_delta cascade insert_tasks insert_owners
    snapshot_index write_index save_locked update_tables has_payload all_tasks payload_bytes_locked
    result_reservation result_bytes_locked result_size input_payload_bytes ids_where delete_all
    expire_rows is_stale sweep_receipts is_history_over kept_tasks sweep_owners cleanup save_input
    trim_input reject_locked session_holder new_task admit refuse_busy start_swept start valid_mode
    valid_style mode_eq style_eq normalize_style allowed_transition terminal_stage settle may_move
    enter commit_tasks locate transition_locked update_task_locked set_stage update_stage set_thread
    attach_thread set_usage attach_usage set_turn attach_turn finish release was_cleared earlier
    next_expiry_of capacity_of count_state status execution_status save_receipts read_result
    load_result load_result_of inspect_result put_completion complete_execution load_completion
    freeze_artifacts set_frozen save_result build_result freeze_result begin_delivery
    replace_attempt note_receipt record_delivery has_attempt begin_redelivery recover_receipt
    recover_completion settle_receipt recover_active validate_payload_root recover_task
    recover_tasks recover_owners recover
ends = (refl, refl, refl, refl, refl, refl, refl, refl)

abbrev pub attached_task : Task
attached_task = record first_task { thread_id = reply }

abbrev pub attached_store : Store
attached_store = store_of attached_task sent_result

abbrev pub admitted_store : Store
admitted_store = with_new_task first_task empty_store

abbrev pub restored_input : Store → Store
restored_input s = record s {
  tables = record (s.tables) { inputs = (first_id, payload_of first_input) ∷ [] };
}

abbrev pub restarted : Store
restarted = restored_input (store_of first_task sent_result)

abbrev pub recovered : Store
recovered = elim (recover (world_at 400 true) restarted) [ ok s ↦ s | err e ↦ restarted ]

abbrev pub completed_before : Task
completed_before = record first_task { execution_completed_at = 150; archive_failed = true }

pub deliveries :
    (find_task_locked started_store.index owner first_id ≡ some first_task)
    × (trim_space owner ≡ owner)
    × (trim_space first_id ≡ first_id)
    × (find completed_store.index owner first_id ≡ some completed_task)
    × (transition_locked (world_at 155 true) no_extra owner first_id failed reply [] completed_store
        ≡ (
          (transition_locked
              (world_at 155 true)
              no_extra
              owner
              first_id
              failed
              reply
              []
              completed_store).0,
          ok (
              enter 155
                (record {
                  state = succeeded;
                  stage = stage_result_pending;
                  reason = reason_result_freeze_failed;
                })
                completed_task),
        ))
    × (begin_redelivery
          (world_at 190 true)
          owner
          first_id
          operation
          (store_of sent_task sent_result)
        ≡ (store_of sent_task resent_result, ok (resent_result, false)))
    × (begin_redelivery
          (world_at 195 true)
          owner
          first_id
          operation
          (store_of sent_task resent_result)
        ≡ (store_of sent_task resent_result, ok (resent_result, true)))
    × (attach_thread (world_at 120 true) owner first_id reply attached_store ≡ (
      (attach_thread (world_at 120 true) owner first_id reply attached_store).0,
      ok attached_task,
    ))
    × (find attached_store.index owner first_id ≡ some attached_task)
unfolding text text_eq is_empty len valid_utf8 is_space trim_left trim_right trim_space
    contains_rune contains_any is_lower is_digit is_hex after_prefix has_prefix is_task_id
    is_safe_id is_reason is_sha256 valid_single_line valid_attachment_name split_path
    is_plain_segment is_clean_below lookup insert delete contains state_eq valid_state terminal
    valid_outcome is_pending is_delivered is_some bad_owner bad_content bad_input_attachment
    validate_start_input bad_identity bad_project bad_display bad_state bad_target bad_completion
    inconsistent bad_retention bad_retry bad_attachments phase_error validate_task
    bad_stored_attachment scan_attachments validate_request validate_receipt bad_artifact
    scan_artifacts bad_url scan_attempts validate_result session_key is_active member scan_task
    scan_tasks scan_owners scan_cleared scan_rejected validate_index find_task replace_task
    find_task_locked find_source_in find_by_source_locked find find_by_source active_task
    delete_missing is_changed put_changed write_delta cascade insert_tasks insert_owners
    snapshot_index write_index save_locked update_tables has_payload all_tasks payload_bytes_locked
    result_reservation result_bytes_locked result_size input_payload_bytes ids_where delete_all
    expire_rows is_stale sweep_receipts is_history_over kept_tasks sweep_owners cleanup save_input
    trim_input reject_locked session_holder new_task admit refuse_busy start_swept start valid_mode
    valid_style mode_eq style_eq normalize_style allowed_transition terminal_stage settle may_move
    enter commit_tasks locate transition_locked update_task_locked set_stage update_stage set_thread
    attach_thread set_usage attach_usage set_turn attach_turn finish release was_cleared earlier
    next_expiry_of capacity_of count_state status execution_status save_receipts read_result
    load_result load_result_of inspect_result put_completion complete_execution load_completion
    freeze_artifacts set_frozen save_result build_result freeze_result begin_delivery
    replace_attempt note_receipt record_delivery has_attempt begin_redelivery recover_receipt
    recover_completion settle_receipt recover_active validate_payload_root recover_task
    recover_tasks recover_owners recover
deliveries = (refl, refl, refl, refl, refl, refl, refl, refl, refl)

pub sweeps :
    (save_locked true no_extra admitted_store
      ≡ ok (record admitted_store {
        persisted = snapshot_index admitted_store.index;
        tables =
            write_index admitted_store.persisted
              (snapshot_index admitted_store.index)
              admitted_store.tables;
      }))
    × (cleanup (world_at 9000000 true) restarted
        ≡ ((cleanup (world_at 9000000 true) restarted).0, ok tt))
    × (recover (world_at 400 true) restarted ≡ ok recovered)
    × (recover_task (world_at 400 true) (restored_input empty_store).tables completed_before
        ≡ ok (
          end_at 400 succeeded stage_result_pending reason_result_freeze_failed completed_before,
          (restored_input empty_store).tables,
        ))
unfolding text text_eq is_empty len valid_utf8 is_space trim_left trim_right trim_space
    contains_rune contains_any is_lower is_digit is_hex after_prefix has_prefix is_task_id
    is_safe_id is_reason is_sha256 valid_single_line valid_attachment_name split_path
    is_plain_segment is_clean_below lookup insert delete contains state_eq valid_state terminal
    valid_outcome is_pending is_delivered is_some bad_owner bad_content bad_input_attachment
    validate_start_input bad_identity bad_project bad_display bad_state bad_target bad_completion
    inconsistent bad_retention bad_retry bad_attachments phase_error validate_task
    bad_stored_attachment scan_attachments validate_request validate_receipt bad_artifact
    scan_artifacts bad_url scan_attempts validate_result session_key is_active member scan_task
    scan_tasks scan_owners scan_cleared scan_rejected validate_index find_task replace_task
    find_task_locked find_source_in find_by_source_locked find find_by_source active_task
    delete_missing is_changed put_changed write_delta cascade insert_tasks insert_owners
    snapshot_index write_index save_locked update_tables has_payload all_tasks payload_bytes_locked
    result_reservation result_bytes_locked result_size input_payload_bytes ids_where delete_all
    expire_rows is_stale sweep_receipts is_history_over kept_tasks sweep_owners cleanup save_input
    trim_input reject_locked session_holder new_task admit refuse_busy start_swept start valid_mode
    valid_style mode_eq style_eq normalize_style allowed_transition terminal_stage settle may_move
    enter commit_tasks locate transition_locked update_task_locked set_stage update_stage set_thread
    attach_thread set_usage attach_usage set_turn attach_turn finish release was_cleared earlier
    next_expiry_of capacity_of count_state status execution_status save_receipts read_result
    load_result load_result_of inspect_result put_completion complete_execution load_completion
    freeze_artifacts set_frozen save_result build_result freeze_result begin_delivery
    replace_attempt note_receipt record_delivery has_attempt begin_redelivery recover_receipt
    recover_completion settle_receipt recover_active validate_payload_root recover_task
    recover_tasks recover_owners recover
sweeps = (refl, refl, refl, refl)

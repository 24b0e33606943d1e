-- ===== src/Examples/Ran.antt =====
-- core/execution: the theorems on the runner, applied.
use codex_link_clawbot.Prelude.{
  ok, err, ◌+◌, ◌≤◌, ◌≡◌, refl, true, false, none, some, [], ◌∷◌, arith,
}
use codex_link_clawbot.Text.{
  Text, text, text_eq, is_empty, len, valid_utf8, is_space, trim_left, trim_right, trim_space,
  contains_rune, contains_any, is_lower, is_digit, is_hex, after_prefix, has_prefix, is_task_id,
  is_safe_id, is_reason, is_sha256, valid_single_line, valid_attachment_name, split_path,
  is_plain_segment, is_clean_below,
}
use codex_link_clawbot.Map.{lookup, insert, delete, contains}
use codex_link_clawbot.Presentation.{valid_mode, valid_style, mode_eq, style_eq, normalize_style}
use codex_link_clawbot.Presentation.Numbers.{ℤ}
use codex_link_clawbot.Request.Types.{
  state_eq, valid_state, terminal, valid_outcome, is_pending, is_delivered, Task, DeliveryOutcome,
  DeliveryReceipt, Result, result_unavailable, files_failed,
}
use codex_link_clawbot.Request.Valid.{
  is_some, bad_owner, bad_content, bad_input_attachment, validate_start_input, bad_identity,
  bad_project, bad_display, bad_state, bad_target, bad_completion, inconsistent, bad_retention,
  bad_retry, bad_attachments, phase_error, validate_task, bad_stored_attachment, scan_attachments,
  validate_request, validate_receipt, bad_artifact, scan_artifacts, bad_url, scan_attempts,
  validate_result,
}
use codex_link_clawbot.Request.Index.{
  session_key, is_active, member, scan_task, scan_tasks, scan_owners, scan_cleared, scan_rejected,
  validate_index, find_task, replace_task, find_task_locked, find_source_in, find_by_source_locked,
  find, find_by_source, active_task,
}
use codex_link_clawbot.Request.Storage.{
  delete_missing, is_changed, put_changed, write_delta, cascade, insert_tasks, insert_owners,
  snapshot_index, write_index, save_locked, update_tables,
}
use codex_link_clawbot.Request.Lifecycle.{
  allowed_transition, terminal_stage, settle, may_move, enter, commit_tasks, locate,
  transition_locked, update_task_locked, set_stage, update_stage, set_thread, attach_thread,
  set_usage, attach_usage, set_turn, attach_turn, finish,
}
use codex_link_clawbot.Request.Retention.{
  has_payload, all_tasks, payload_bytes_locked, result_reservation, result_bytes_locked,
  result_size, input_payload_bytes, ids_where, delete_all, expire_rows, is_stale, sweep_receipts,
  is_history_over, kept_tasks, sweep_owners, cleanup,
}
use codex_link_clawbot.Request.Admission.{
  save_input, trim_input, reject_locked, session_holder, new_task, admit, refuse_busy, start_swept,
  start,
}
use codex_link_clawbot.Request.Delivery.{
  save_receipts, read_result, load_result, load_result_of, inspect_result, complete_at,
  put_completion, complete_execution, load_completion, freeze_artifacts, set_frozen, save_result,
  frozen_result, build_result, freeze_result, begin_delivery,
}
use codex_link_clawbot.Request.Receipts.{
  replace_attempt, note_receipt, record_delivery, has_attempt, begin_redelivery,
}
use codex_link_clawbot.Runner.{
  fail, cancelled_run, fail_before, open_thread, can_prepare_outbox, prepare_run, follow_event,
  follow_events, chat_run, freeze_reply, defer_outcome, deliver_result, conclude, chat_failed,
  execute, restore_result, Run, Outside,
}
use codex_link_clawbot.Runner.Sent.{deliveries}
use codex_link_clawbot.Runner.Once.{answers, execute-deliveries}
use codex_link_clawbot.Runner.Kept.{IsKept}
use codex_link_clawbot.Runner.Concluded.{conclude-IsKept}
use codex_link_clawbot.Runner.Restored.{restore_result-once}
use codex_link_clawbot.Examples.{world_at, first_id, first_task, started_store}

abbrev asker : Text
asker = b'o' ∷ []

abbrev reply_text : Text
reply_text = b'h' ∷ b'i' ∷ []

abbrev told_receipt : DeliveryReceipt
told_receipt = record {
  operation_id = [];
  outcome = DeliveryOutcome.succeeded;
  attempted_at = 0;
  media_sent = 0;
  text_sent = true;
  failure_code = [];
}

-- Codex answers at once, and nothing fails.
abbrev calm : Outside
calm = record {
  world = λ n. world_at 120 true;
  target_world = record { is_uuid = λ t. true; new_id = λ k. k ∷ []; commits = true };
  loads = true;
  has_workspace = λ p. true;
  progress = record { enabled = false; typing_interval = ℤ.pos 0; first_message_delay = ℤ.pos 0 };
  can_send_slow = true;
  prepare = λ s. (s, true);
  is_live_prepared = true;
  has_outbox = true;
  opens = λ t. ok t;
  events = [];
  chat = ok reply_text;
  usage = none;
  finalizes = false;
  is_live = true;
  collect = λ reply. ok (record { reply = reply; artifact_paths = []; image_urls = [] });
  freeze_file = λ path. err files_failed;
  deliver = λ r. told_receipt;
  delivered_at = 121;
  read_turn = λ thread turn. none;
}

abbrev first_run : Run
first_run = record {
  requests = started_store;
  targets = record {
    default_workspace = b'p' ∷ [];
    version = 1;
    owners = [];
    revisions = [];
    rows = [];
  };
  calls = 0;
  sent = [];
}

abbrev completed_run : Run
completed_run = record first_run {
  requests = (complete_execution (world_at 110 true) asker first_id reply_text started_store).0;
}

abbrev completed_task : Task
completed_task = complete_at 110 reply_text (text "执行完成，正在保存结果") first_task

abbrev restored_run : Run
restored_run = (restore_result calm asker first_id completed_run).0

abbrev restored_result : Result
restored_result =
    frozen_result 120 completed_task
      (record { reply = reply_text; artifact_paths = []; image_urls = [] }) []

ran :
    (find_task_locked started_store.index asker first_id ≡ some first_task)
    × (trim_space asker ≡ asker)
    × (trim_space first_id ≡ first_id)
    × (find completed_run.requests.index asker first_id ≡ some completed_task)
    × (restore_result calm asker first_id completed_run ≡ (restored_run, ok restored_result))
    × (len reply_text ≡ 2)
    × (deliveries (conclude calm first_task reply_text first_run) ≡ 1)
unfolding fail cancelled_run fail_before open_thread can_prepare_outbox prepare_run follow_event
    follow_events chat_run freeze_reply defer_outcome deliver_result conclude chat_failed execute
    restore_result text text_eq is_empty len valid_utf8 is_space trim_left trim_right trim_space
    contains_rune contains_any is_lower is_digit is_hex after_prefix has_prefix is_task_id
    is_safe_id is_reason is_sha256 valid_single_line valid_attachment_name split_path
    is_plain_segment is_clean_below lookup insert delete contains state_eq valid_state terminal
    valid_outcome is_pending is_delivered is_some bad_owner bad_content bad_input_attachment
    validate_start_input bad_identity bad_project bad_display bad_state bad_target bad_completion
    inconsistent bad_retention bad_retry bad_attachments phase_error validate_task
    bad_stored_attachment scan_attachments validate_request validate_receipt bad_artifact
    scan_artifacts bad_url scan_attempts validate_result session_key is_active member scan_task
    scan_tasks scan_owners scan_cleared scan_rejected validate_index find_task replace_task
    find_task_locked find_source_in find_by_source_locked find find_by_source active_task
    delete_missing is_changed put_changed write_delta cascade insert_tasks insert_owners
    snapshot_index write_index save_locked update_tables allowed_transition terminal_stage settle
    may_move enter commit_tasks locate transition_locked update_task_locked set_stage update_stage
    set_thread attach_thread set_usage attach_usage set_turn attach_turn finish has_payload
    all_tasks payload_bytes_locked result_reservation result_bytes_locked result_size
    input_payload_bytes ids_where delete_all expire_rows is_stale sweep_receipts is_history_over
    kept_tasks sweep_owners cleanup save_input trim_input reject_locked session_holder new_task
    admit refuse_busy start_swept start save_receipts read_result load_result load_result_of
    inspect_result put_completion complete_execution load_completion freeze_artifacts set_frozen
    save_result build_result freeze_result begin_delivery replace_attempt note_receipt
    record_delivery has_attempt begin_redelivery valid_mode valid_style mode_eq style_eq
    normalize_style
ran = (refl, refl, refl, refl, refl, refl, refl)

conclude-IsKept_example :
    IsKept asker first_id (conclude calm first_task reply_text first_run).requests
unfolding new_task
conclude-IsKept_example =
    conclude-IsKept calm first_task first_task reply_text first_run ran.1 ran.2 ran.0 refl
      (omega (arith, ran.5)) (omega arith)

execute-deliveries_example :
    deliveries (execute calm first_task first_run) ≤ deliveries first_run + answers calm.chat
execute-deliveries_example = execute-deliveries calm first_task first_run

restore_result-once_example :
    restore_result calm asker first_id restored_run ≡ (restored_run, err result_unavailable)
unfolding new_task
restore_result-once_example =
    restore_result-once calm calm asker first_id completed_run completed_task ran.3 refl refl ran.4

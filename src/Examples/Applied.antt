-- ===== src/Examples/Applied.antt =====
-- core/request: the theorems on the store, applied to the examples.
use codex_link_clawbot.Prelude.{ok, err, ◌≤◌, ◌≡◌, refl, true, false, none, some, [], ◌∷◌, arith}
use codex_link_clawbot.Text.{
  text, text_eq, is_empty, len, valid_utf8, is_space, trim_left, trim_right, trim_space,
  contains_rune, contains_any, is_lower, is_digit, is_hex, after_prefix, has_prefix, is_task_id,
  is_safe_id, is_reason, is_sha256, valid_single_line, valid_attachment_name, split_path,
  is_plain_segment, is_clean_below,
}
use codex_link_clawbot.Map.{lookup, insert, delete, contains, HasDistinctKeys}
use codex_link_clawbot.Presentation.{valid_mode, valid_style, mode_eq, style_eq, normalize_style}
use codex_link_clawbot.Request.Types.{
  state_eq, valid_state, terminal, max_result_store_bytes, max_input_store_bytes,
  max_result_reply_bytes, valid_outcome, is_pending, is_delivered, State, failed, cancelled, Task,
  already_cleared, task_not_found, files_failed, StartInput,
}
use codex_link_clawbot.Request.Valid.{
  is_some, bad_owner, bad_content, bad_input_attachment, validate_start_input, bad_identity,
  bad_project, bad_display, bad_state, bad_target, bad_completion, inconsistent, bad_retention,
  bad_retry, bad_attachments, phase_error, validate_task, bad_stored_attachment, scan_attachments,
  validate_request, validate_receipt, bad_artifact, scan_artifacts, bad_url, scan_attempts,
  validate_result,
}
use codex_link_clawbot.Request.Index.{
  session_key, is_active, member, scan_task, scan_tasks, scan_owners, scan_cleared, scan_rejected,
  validate_index, find_task, replace_task, tasks_of, find_task_locked, find_source_in,
  find_by_source_locked, find, find_by_source, active_task,
}
use codex_link_clawbot.Request.Storage.{
  delete_missing, is_changed, put_changed, write_delta, cascade, insert_tasks, insert_owners,
  snapshot_index, write_index, no_extra, save_locked, update_tables, Store,
}
use codex_link_clawbot.Request.Retention.{
  has_payload, all_tasks, payload_bytes_locked, max_result_reservation, result_reservation,
  result_bytes_locked, result_size, input_payload_bytes, ids_where, delete_all, expire_rows,
  is_stale, sweep_receipts, is_history_over, kept_tasks, sweep_owners, cleanup,
}
use codex_link_clawbot.Request.Admission.{
  save_input, trim_input, reject_locked, session_holder, input_session, new_task, admit,
  refuse_busy, start_swept, start,
}
use codex_link_clawbot.Request.Lifecycle.{
  allowed_transition, terminal_stage, settle, may_move, enter, commit_tasks, locate,
  transition_locked, update_task_locked, set_stage, update_stage, set_thread, attach_thread,
  set_usage, attach_usage, set_turn, attach_turn, finish,
}
use codex_link_clawbot.Request.Delivery.{
  save_receipts, read_result, load_result, load_result_of, inspect_result, put_completion,
  complete_execution, load_completion, freeze_artifacts, set_frozen, save_result, frozen_result,
  build_result, freeze_result, begin_delivery,
}
use codex_link_clawbot.Examples.{
  world_at, first_id, second_id, first_input, staging_of, empty_store, first_task, started_store,
  started_ok,
}
use codex_link_clawbot.Examples.Requests.{
  owner, reply, failed_store, failed_task, released_store, result_input, sent_task, sent_result,
  store_of, operation, resent_result, cancelled_lines, starts, ends, attached_task, admitted_store,
  restored_input, restarted, recovered, completed_before, deliveries, sweeps,
}
use codex_link_clawbot.Request.Admission.Session.{holders, start_swept-holders, start_swept-room}
use codex_link_clawbot.Request.Admission.Once.{start-once}
use codex_link_clawbot.Request.Admission.Unique.{validate_index-one_holder}
use codex_link_clawbot.Request.Release.Cleared.{release-closes_source}
use codex_link_clawbot.Request.Lifecycle.Transition.{transition_locked-StateStep, StateStep}
use codex_link_clawbot.Request.Lifecycle.Progress.{transition_locked-total}
use codex_link_clawbot.Request.Delivery.Checkpoint.{complete_execution-Completed, Completed}
use codex_link_clawbot.Request.Delivery.Bounds.{build_result-reserved}
use codex_link_clawbot.Request.Receipts.Repeat.{begin_redelivery-once}
use codex_link_clawbot.Request.Retention.Sweep.{is_within, in_history, cleanup-in_history}
use codex_link_clawbot.Request.Recovery.Ended.{recover_task_complete, has_active, recover-idle}
use codex_link_clawbot.Request.Storage.Synced.{save_locked-RowsAgree, RowsAgree}

failed_is_terminal : terminal failed_task.state ≡ true
unfolding terminal enter
failed_is_terminal = refl

nothing_to_update :
    update_task_locked (world_at 100 true) no_extra owner first_id (set_stage reply) empty_store
    ≡ (empty_store, err task_not_found)
unfolding update_task_locked locate lookup trim_space
nothing_to_update = refl

reply_is_there : is_empty attached_task.thread_id ≡ false
unfolding is_empty
reply_is_there = refl

reply_fits : len reply ≤ max_result_reply_bytes
unfolding len
reply_fits = omega arith

one_owner : HasDistinctKeys restarted.index.owners
unfolding lookup
one_owner = (refl, tt)

running_is_active : is_active completed_before.state ≡ true
unfolding is_active new_task
running_is_active = refl

empty_rows : RowsAgree admitted_store.persisted admitted_store.tables
empty_rows = record {
  requests = λ k. refl;
  rejected = λ k. refl;
  cleared = λ k. refl;
  order = refl;
}

-- The same source with other text, and with a space before it.
abbrev repeated_input : StartInput
repeated_input = record first_input { text = reply; source_message_key = 32 ∷ b'm' ∷ b'1' ∷ [] }

abbrev repeated_at : Store
repeated_at = (cleanup (world_at 400 true) failed_store).0

once_runs :
    (start (world_at 100 true) (staging_of first_id first_input) first_input empty_store
      ≡ (started_store, ok (first_task, false)))
    × (trim_space repeated_input.source_message_key ≡ trim_space first_input.source_message_key)
    × (validate_start_input (world_at 400 true).lib (trim_input repeated_input) ≡ ok tt)
    × HasDistinctKeys failed_store.index.owners
    × (find_by_source failed_store.index first_input.source_message_key ≡ some failed_task)
    × (is_within failed_task.state failed_task.finished_at 400 ≡ true)
    × (cleanup (world_at 400 true) failed_store ≡ (repeated_at, ok tt))
unfolding is_within text text_eq is_empty len valid_utf8 is_space trim_left trim_right trim_space
    contains_rune contains_any is_lower is_digit is_hex after_prefix has_prefix is_task_id
    is_safe_id is_reason is_sha256 valid_single_line valid_attachment_name split_path
    is_plain_segment is_clean_below lookup insert delete contains state_eq valid_state terminal
    valid_outcome is_pending is_delivered is_some bad_owner bad_content bad_input_attachment
    validate_start_input bad_identity bad_project bad_display bad_state bad_target bad_completion
    inconsistent bad_retention bad_retry bad_attachments phase_error validate_task
    bad_stored_attachment scan_attachments validate_request validate_receipt bad_artifact
    scan_artifacts bad_url scan_attempts validate_result session_key is_active member scan_task
    scan_tasks scan_owners scan_cleared scan_rejected validate_index find_task replace_task
    find_task_locked find_source_in find_by_source_locked find find_by_source active_task
    delete_missing is_changed put_changed write_delta cascade insert_tasks insert_owners
    snapshot_index write_index save_locked update_tables has_payload all_tasks payload_bytes_locked
    result_reservation result_bytes_locked result_size input_payload_bytes ids_where delete_all
    expire_rows is_stale sweep_receipts is_history_over kept_tasks sweep_owners cleanup save_input
    trim_input reject_locked session_holder new_task admit refuse_busy start_swept start valid_mode
    valid_style mode_eq style_eq normalize_style allowed_transition terminal_stage settle may_move
    enter commit_tasks locate transition_locked update_task_locked set_stage update_stage set_thread
    attach_thread set_usage attach_usage set_turn attach_turn finish save_receipts read_result
    load_result load_result_of inspect_result put_completion complete_execution load_completion
    freeze_artifacts set_frozen save_result build_result freeze_result begin_delivery
once_runs = (refl, refl, refl, (refl, tt), refl, refl, refl)

start-once_example :
    (find_by_source started_store.index first_input.source_message_key ≡ some first_task)
    × (start (world_at 400 true) (staging_of second_id first_input) repeated_input failed_store
        ≡ (repeated_at, ok (failed_task, true)))
start-once_example =
    start-once (world_at 100 true) (world_at 400 true) (staging_of first_id first_input)
      (staging_of second_id first_input) first_input repeated_input empty_store started_store
      failed_store once_runs.0 once_runs.1 once_runs.2 once_runs.3 once_runs.4 once_runs.5
      once_runs.6

start_swept-holders_example :
    (holders (input_session first_input) empty_store.index ≡ 0)
    × (holders (input_session first_input) started_store.index ≡ 1)
start_swept-holders_example =
    start_swept-holders (world_at 100 true) (staging_of first_id first_input) first_input
      empty_store started_ok

start_swept-room_example :
    (result_bytes_locked 100 started_store.index ≤ max_result_store_bytes)
    × (payload_bytes_locked 100 started_store.index ≤ max_input_store_bytes)
start_swept-room_example =
    start_swept-room (world_at 100 true) (staging_of first_id first_input) first_input empty_store
      started_ok

validate_index-one_holder_example : holders (input_session first_input) started_store.index ≤ 1
validate_index-one_holder_example =
    validate_index-one_holder (input_session first_input) started_store.index starts.1

release-closes_source_example :
    (find_task_locked released_store.index owner first_id ≡ none)
    × (start_swept (world_at 400 true) (staging_of second_id first_input) first_input released_store
        ≡ (released_store, err already_cleared))
unfolding enter new_task
release-closes_source_example =
    release-closes_source (world_at 300 true) (world_at 400 true) (staging_of second_id first_input)
      first_input owner first_id failed_store ends.4 ends.5 refl

transition_locked-StateStep_example :
    (t : Task) × (find started_store.index owner first_id ≡ some t)
    × StateStep t t.state failed_task.state
transition_locked-StateStep_example =
    transition_locked-StateStep (world_at 200 true) no_extra owner first_id failed
      (terminal_stage failed) [] started_store ends.1

transition_locked-total_example :
    (transition_locked
      (world_at 200 true)
      no_extra
      owner
      first_id
      cancelled
      (terminal_stage cancelled)
      []
      started_store).1
    ≡ ok (enter 200 cancelled_lines first_task)
transition_locked-total_example =
    transition_locked-total (world_at 200 true) owner first_id cancelled (terminal_stage cancelled)
      [] started_store (first_task ∷ []) first_task cancelled_lines refl starts.1 starts.2 starts.3
      starts.4 (record { stage_line = starts.5; reason_code = starts.6 })

complete_execution-Completed_example :
    Completed 150 owner first_id
      (complete_execution (world_at 150 false) owner first_id reply started_store).0
unfolding new_task
complete_execution-Completed_example =
    complete_execution-Completed (world_at 150 false) owner first_id reply started_store first_task
      deliveries.1 deliveries.2 deliveries.0 refl reply_fits

begin_redelivery-once_example :
    (store_of sent_task resent_result ≡ store_of sent_task resent_result) × (true ≡ true)
begin_redelivery-once_example =
    begin_redelivery-once (world_at 190 true) (world_at 195 true) owner first_id operation
      (store_of sent_task sent_result) refl deliveries.5 deliveries.6

cleanup-in_history_example :
    tasks_of owner (cleanup (world_at 9000000 true) restarted).0.index
    ≡ in_history 9000000 (tasks_of owner restarted.index)
cleanup-in_history_example =
    cleanup-in_history (world_at 9000000 true) restarted owner one_owner sweeps.1

recover-idle_example : has_active (tasks_of owner recovered.index) ≡ false
recover-idle_example = recover-idle (world_at 400 true) restarted owner one_owner sweeps.2

recover_task_complete_example : State.succeeded ≡ State.succeeded
recover_task_complete_example =
    recover_task_complete (world_at 400 true) (restored_input empty_store).tables completed_before
      running_is_active (omega arith) sweeps.3

save_locked-RowsAgree_example : RowsAgree (snapshot_index admitted_store.index) (
    write_index admitted_store.persisted
      (snapshot_index admitted_store.index)
      admitted_store.tables)
save_locked-RowsAgree_example = save_locked-RowsAgree true admitted_store tt tt empty_rows sweeps.0

built :
    build_result
      (world_at 160 true)
      (λ path. err files_failed)
      first_task
      result_input
      started_store
    ≡ ok (frozen_result 160 first_task result_input [])
unfolding text text_eq is_empty len valid_utf8 is_space trim_left trim_right trim_space
    contains_rune contains_any is_lower is_digit is_hex after_prefix has_prefix is_task_id
    is_safe_id is_reason is_sha256 valid_single_line valid_attachment_name split_path
    is_plain_segment is_clean_below lookup insert delete contains state_eq valid_state terminal
    valid_outcome is_pending is_delivered is_some bad_owner bad_content bad_input_attachment
    validate_start_input bad_identity bad_project bad_display bad_state bad_target bad_completion
    inconsistent bad_retention bad_retry bad_attachments phase_error validate_task
    bad_stored_attachment scan_attachments validate_request validate_receipt bad_artifact
    scan_artifacts bad_url scan_attempts validate_result session_key is_active member scan_task
    scan_tasks scan_owners scan_cleared scan_rejected validate_index find_task replace_task
    find_task_locked find_source_in find_by_source_locked find find_by_source active_task
    delete_missing is_changed put_changed write_delta cascade insert_tasks insert_owners
    snapshot_index write_index save_locked update_tables has_payload all_tasks payload_bytes_locked
    result_reservation result_bytes_locked result_size input_payload_bytes ids_where delete_all
    expire_rows is_stale sweep_receipts is_history_over kept_tasks sweep_owners cleanup save_input
    trim_input reject_locked session_holder new_task admit refuse_busy start_swept start valid_mode
    valid_style mode_eq style_eq normalize_style allowed_transition terminal_stage settle may_move
    enter commit_tasks locate transition_locked update_task_locked set_stage update_stage set_thread
    attach_thread set_usage attach_usage set_turn attach_turn finish save_receipts read_result
    load_result load_result_of inspect_result put_completion complete_execution load_completion
    freeze_artifacts set_frozen save_result build_result freeze_result begin_delivery
built = refl

build_result-reserved_example :
    result_size (frozen_result 160 first_task result_input []) ≤ max_result_reservation
build_result-reserved_example =
    build_result-reserved (world_at 160 true) (λ path. err files_failed) first_task result_input
      started_store built

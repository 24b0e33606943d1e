-- ===== src/Examples.antt =====
-- core/request: the requests that the examples run on.
pub mod Requests
pub mod Applied
pub mod Services
pub mod Targeted
pub mod Noticed
pub mod Ran
pub mod Chosen
pub mod Progressed
use codex_link_clawbot.Prelude.{ok, ℕ, zero, suc, ◌≡◌, refl, Bool, true, false, none, some, [], ◌∷◌}
use codex_link_clawbot.Text.{
  Text, text, text_eq, is_empty, len, valid_utf8, is_space, trim_left, trim_right, trim_space,
  contains_rune, contains_any, is_lower, is_digit, is_hex, after_prefix, has_prefix, is_task_id,
  is_safe_id, is_reason, is_sha256, valid_single_line, valid_attachment_name, split_path,
  is_plain_segment, is_clean_below,
}
use codex_link_clawbot.Map.{lookup, insert, delete, contains}
use codex_link_clawbot.Presentation.{
  valid_mode, valid_style, mode_eq, style_eq, normalize_style, plain, minimal,
}
use codex_link_clawbot.Request.Types.{
  state_eq, valid_state, terminal, valid_outcome, is_pending, is_delivered, Task, Index, Request,
  StartInput,
}
use codex_link_clawbot.Request.Valid.{
  is_some, bad_owner, bad_content, bad_input_attachment, validate_start_input, bad_identity,
  bad_project, bad_display, bad_state, bad_target, bad_completion, inconsistent, bad_retention,
  bad_retry, bad_attachments, phase_error, validate_task, bad_stored_attachment, scan_attachments,
  validate_request, validate_receipt, bad_artifact, scan_artifacts, bad_url, scan_attempts,
  validate_result, Libraries,
}
use codex_link_clawbot.Request.Index.{
  session_key, is_active, member, scan_task, scan_tasks, scan_owners, scan_cleared, scan_rejected,
  validate_index, find_task, replace_task, find_task_locked, find_source_in, find_by_source_locked,
  find, find_by_source, active_task,
}
use codex_link_clawbot.Request.Storage.{
  delete_missing, is_changed, put_changed, write_delta, cascade, insert_tasks, insert_owners,
  snapshot_index, write_index, save_locked, update_tables, Store, World,
}
use codex_link_clawbot.Request.Retention.{
  has_payload, all_tasks, payload_bytes_locked, result_reservation, result_bytes_locked,
  result_size, input_payload_bytes, ids_where, delete_all, expire_rows, is_stale, sweep_receipts,
  is_history_over, kept_tasks, sweep_owners, cleanup,
}
use codex_link_clawbot.Request.Admission.{
  save_input, trim_input, reject_locked, session_holder, new_task, admit, refuse_busy, start_swept,
  start, Staging,
}

abbrev pub lib : Libraries
lib = record { json_valid = λ b. true; parse_uuid = λ t. some t; parse_url = λ t. none }

-- A world at a time, with SQLite's answer.
abbrev pub world_at : ℕ → Bool → World
world_at now commit = record {
  lib = lib;
  now = now;
  commit = commit;
  sweep = λ k. true;
  removable = λ t. true;
  artifact_ok = λ t a. true;
  root_ok = λ t. true;
}

abbrev pub repeat : ℕ → ℕ → Text
repeat zero c = []
repeat (suc n) c = c ∷ repeat n c

-- `task-` and 32 times a digit.
abbrev pub task_id_of : ℕ → Text
task_id_of c = b't' ∷ b'a' ∷ b's' ∷ b'k' ∷ b'-' ∷ repeat 32 c

abbrev pub first_id : Text
first_id = task_id_of b'0'

abbrev pub second_id : Text
second_id = task_id_of b'f'

abbrev pub input_from : Text → StartInput
input_from source = record {
  source_data = [];
  target_id = b't' ∷ [];
  source_message_key = source;
  owner_id = b'o' ∷ [];
  project_id = b'p' ∷ [];
  thread_id = [];
  summary = b's' ∷ [];
  text = b'h' ∷ b'i' ∷ [];
  context_token = b'c' ∷ [];
  response_mode = plain;
  visual_style = minimal;
  retry_of = [];
  images = [];
  files = [];
}

abbrev pub first_input : StartInput
first_input = input_from (b'm' ∷ b'1' ∷ [])

abbrev pub second_input : StartInput
second_input = input_from (b'm' ∷ b'2' ∷ [])

abbrev pub payload_of : StartInput → Request
payload_of input = record {
  source_data = [];
  version = 2;
  source_message_key = input.source_message_key;
  text = input.text;
  context_token = input.context_token;
  images = [];
  files = [];
}

abbrev pub staging_of : Text → StartInput → Staging
staging_of id input = record { new_id = some id; staged = ok (payload_of input) }

abbrev pub empty_index : Index
empty_index = record { version = 4; next_order = 1; owners = []; rejected = []; cleared = [] }

abbrev pub empty_store : Store
empty_store = record {
  index = empty_index;
  persisted = record { tasks = []; rejected = []; cleared = []; next_order = 1 };
  tables = record {
    requests = [];
    rejected_sources = [];
    cleared_sources = [];
    next_order = 1;
    inputs = [];
    completions = [];
    results = [];
  };
}

abbrev pub first_task : Task
first_task = new_task (world_at 100 true) first_input first_id 1

-- The store after the first start.
abbrev pub started_store : Store
started_store =
    (start_swept (world_at 100 true) (staging_of first_id first_input) first_input empty_store).0

pub started_ok :
    start_swept (world_at 100 true) (staging_of first_id first_input) first_input empty_store
    ≡ (started_store, ok (first_task, false))
unfolding text text_eq is_empty len valid_utf8 is_space trim_left trim_right trim_space
    contains_rune contains_any is_lower is_digit is_hex after_prefix has_prefix is_task_id
    is_safe_id is_reason is_sha256 valid_single_line valid_attachment_name split_path
    is_plain_segment is_clean_below lookup insert delete contains state_eq valid_state terminal
    valid_outcome is_pending is_delivered is_some bad_owner bad_content bad_input_attachment
    validate_start_input bad_identity bad_project bad_display bad_state bad_target bad_completion
    inconsistent bad_retention bad_retry bad_attachments phase_error validate_task
    bad_stored_attachment scan_attachments validate_request validate_receipt bad_artifact
    scan_artifacts bad_url scan_attempts validate_result session_key is_active member scan_task
    scan_tasks scan_owners scan_cleared scan_rejected validate_index find_task replace_task
    find_task_locked find_source_in find_by_source_locked find find_by_source active_task
    delete_missing is_changed put_changed write_delta cascade insert_tasks insert_owners
    snapshot_index write_index save_locked update_tables has_payload all_tasks payload_bytes_locked
    result_reservation result_bytes_locked result_size input_payload_bytes ids_where delete_all
    expire_rows is_stale sweep_receipts is_history_over kept_tasks sweep_owners cleanup save_input
    trim_input reject_locked session_holder new_task admit refuse_busy start_swept start valid_mode
    valid_style mode_eq style_eq normalize_style
started_ok = refl

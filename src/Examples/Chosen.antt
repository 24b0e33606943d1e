-- ===== src/Examples/Chosen.antt =====
-- core/thread, core/workspace, core/conversation and core/execution/activity.go: the theorems,
-- applied.
use codex_link_clawbot.Prelude.{
  ok, err, length, all, ℕ, ◌≡◌, refl, true, false, none, some, List, [], ◌∷◌, arith,
}
use codex_link_clawbot.Text.{
  Text, text, text_eq, is_empty, len, valid_utf8, is_space, trim_left, trim_right, trim_space,
  contains_rune, contains_any, is_lower, is_digit, is_hex, after_prefix, has_prefix, is_task_id,
  is_safe_id, is_reason, is_sha256, valid_single_line, valid_attachment_name, split_path,
  is_plain_segment, is_clean_below,
}
use codex_link_clawbot.Map.{lookup, insert, delete, contains}
use codex_link_clawbot.Request.Types.{
  state_eq, valid_state, terminal, valid_outcome, is_pending, is_delivered, Index,
}
use codex_link_clawbot.Request.Index.{
  session_key, is_active, member, scan_task, scan_tasks, scan_owners, scan_cleared, scan_rejected,
  validate_index, find_task, replace_task, find_task_locked, find_source_in, find_by_source_locked,
  find, find_by_source, active_task,
}
use codex_link_clawbot.Workspace.{
  has_id, trimmed_definition, add_definitions, new_manager, get_workspace, canonical_path,
  starts_with_slash, within, match_from, match_workspace, contains_path, Definition, FileSystem,
}
use codex_link_clawbot.Workspace.Matches.{root_length, at_most, match_workspace-longest, Among}
use codex_link_clawbot.Thread.{
  add_thread, add_threads, scan_from, scan_global_threads, thread_by_id, read_available_thread,
  use_global_thread, normalize_name, resume_available, start_named, open_task_thread, short_code,
  recency, comes_before, insert_thread, sort_threads, listed_threads, pages_of, page_of,
  global_list, ThreadInfo, ThreadClient, starts, archives, invalidates,
}
use codex_link_clawbot.Thread.Scanned.{
  has_distinct_ids, has_named_ids, scan_global_threads-distinct,
}
use codex_link_clawbot.Thread.Pages.{first_pages, first_pages-all}
use codex_link_clawbot.Target.{
  intent_eq, bad_intent, bad_current, validate_owner, validate_owners, validate_targets, owner_of,
  intent_in, current_locked, snapshot_target, resolve, same_current, has_moved, bump, bump_moved,
  write_owner, write_owners, commit_targets, find_intent, remember, capture, chosen_intent,
  select_locked, select_thread, new_conversation, bind, clear_current, clear_thread,
  selection_changed,
}
use codex_link_clawbot.Target.Moves.{Commits}
use codex_link_clawbot.Conversation.{
  select_conversation, select_created, create_conversation, trusted, rename_conversation,
  ConversationError, of_target, Service,
}
use codex_link_clawbot.Conversation.Created.{create_conversation-stale}
use codex_link_clawbot.Conversation.Undone.{is_undone, is_told, create_conversation-undone}
use codex_link_clawbot.Activity.{catalog_activity, read_activity, CodexStatus}
use codex_link_clawbot.Activity.Busy.{read_activity-idle}
use codex_link_clawbot.Examples.Targeted.{
  boss, desk, chat, uuids, no_targets, captured, captured_owner, targeted,
}

abbrev home_path : Text
home_path = b'/' ∷ b'a' ∷ []

abbrev nested_path : Text
nested_path = b'/' ∷ b'a' ∷ b'/' ∷ b'b' ∷ []

abbrev home : Definition
home = record { id = b'h' ∷ []; name = b'h' ∷ []; root = home_path }

abbrev nested : Definition
nested = record { id = b'n' ∷ []; name = b'n' ∷ []; root = nested_path }

-- Paths that are clean and without links.
abbrev plain_files : FileSystem
plain_files = record {
  clean = λ p. p;
  is_absolute = λ p. true;
  is_directory = λ p. true;
  resolve_links = λ p. some p;
}

abbrev idle_thread : Text → ThreadInfo
idle_thread id = record {
  id = id;
  name = [];
  cwd = nested_path;
  status = [];
  recency_at = none;
  updated_at = 1;
}

abbrev three_threads : List ThreadInfo
three_threads = idle_thread (b'1' ∷ []) ∷ idle_thread (b'2' ∷ []) ∷ idle_thread (b'3' ∷ []) ∷ []

-- A Codex that lists one page, with a thread twice, and starts, names and archives sessions.
abbrev one_page : ThreadClient
one_page = record {
  list_threads = λ round archived query cursor. some (record {
    threads = idle_thread (b'1' ∷ []) ∷ idle_thread (b'1' ∷ []) ∷ [];
    next_cursor = [];
  });
  resume_thread = λ id root. none;
  start_thread = λ root. some (idle_thread (b'9' ∷ []));
  set_thread_name = λ id name. true;
  archive_thread = λ id. true;
}

abbrev chooser : Service
chooser = record {
  fs = plain_files;
  client = one_page;
  workspaces = home ∷ nested ∷ [];
  target_world = uuids;
  read_thread = λ id. none;
  is_live = true;
}

abbrev new_session : ThreadInfo
new_session = record (idle_thread (b'9' ∷ [])) { name = b's' ∷ [] }

chosen_runs :
    (match_workspace plain_files nested_path (home ∷ nested ∷ []) ≡ some nested)
    × (scan_global_threads one_page false [] ≡ ok (idle_thread (b'1' ∷ []) ∷ []))
    × (get_workspace (b'n' ∷ []) (home ∷ nested ∷ []) ≡ some nested)
    × ((open_task_thread plain_files one_page boss nested [] (b's' ∷ [])).1 ≡ ok new_session)
    × (is_empty (trim_space new_session.id) ≡ false)
    × ((create_conversation chooser boss (b'n' ∷ []) (b's' ∷ []) no_targets captured).result
        ≡ err (of_target selection_changed))
    × ((create_conversation chooser boss (b'n' ∷ []) (b's' ∷ []) no_targets captured).calls
        ≡ starts (idle_thread (b'9' ∷ []))
          ∷ invalidates
          ∷ archives (b'9' ∷ []) true
          ∷ invalidates
          ∷ [])
unfolding add_thread add_threads scan_from scan_global_threads thread_by_id read_available_thread
    use_global_thread normalize_name resume_available start_named open_task_thread short_code
    recency comes_before insert_thread sort_threads listed_threads page_of global_list has_id
    trimmed_definition add_definitions new_manager get_workspace canonical_path starts_with_slash
    within match_from match_workspace contains_path select_conversation select_created
    create_conversation trusted rename_conversation text text_eq is_empty len valid_utf8 is_space
    trim_left trim_right trim_space contains_rune contains_any is_lower is_digit is_hex after_prefix
    has_prefix is_task_id is_safe_id is_reason is_sha256 valid_single_line valid_attachment_name
    split_path is_plain_segment is_clean_below intent_eq bad_intent bad_current validate_owner
    validate_owners validate_targets owner_of intent_in current_locked snapshot_target resolve
    same_current has_moved bump bump_moved write_owner write_owners commit_targets find_intent
    remember capture chosen_intent select_locked select_thread new_conversation bind clear_current
    clear_thread lookup insert delete contains
chosen_runs = (refl, refl, refl, refl, refl, refl, refl)

match_workspace-longest_example :
    (path : Text) × (n : ℕ) × (canonical_path plain_files nested_path ≡ some path)
    × Among nested (home ∷ nested ∷ [])
    × (root_length plain_files path nested ≡ some n)
    × (all (λ e. at_most n (root_length plain_files path e)) (home ∷ nested ∷ []) ≡ true)
match_workspace-longest_example =
    match_workspace-longest plain_files nested_path (home ∷ nested ∷ []) chosen_runs.0

scan_global_threads-distinct_example :
    (has_distinct_ids (idle_thread (b'1' ∷ []) ∷ []) ≡ true)
    × (has_named_ids (idle_thread (b'1' ∷ []) ∷ []) ≡ true)
scan_global_threads-distinct_example = scan_global_threads-distinct one_page false [] chosen_runs.1

first_pages-all_example :
    first_pages 2 (pages_of (length three_threads) 2) three_threads ≡ three_threads
first_pages-all_example = first_pages-all 2 three_threads (omega arith)

create_conversation-undone_example :
    (all
        (is_undone one_page
          (create_conversation chooser boss (b'n' ∷ []) (b's' ∷ []) no_targets captured).calls)
        (create_conversation chooser boss (b'n' ∷ []) (b's' ∷ []) no_targets captured).calls
      ≡ true)
    × (all
          (is_told (of_target selection_changed))
          (create_conversation chooser boss (b'n' ∷ []) (b's' ∷ []) no_targets captured).calls
        ≡ true)
create_conversation-undone_example =
    create_conversation-undone chooser boss (b'n' ∷ []) (b's' ∷ []) no_targets captured
      chosen_runs.5

create_conversation-stale_example :
    ((create_conversation chooser boss (b'n' ∷ []) (b's' ∷ []) no_targets captured).targets
      ≡ captured)
    × ((e : ConversationError) × ((create_conversation chooser boss
            (b'n' ∷ [])
            (b's' ∷ [])
            no_targets
            captured).result
          ≡ err e))
unfolding lookup has_moved
create_conversation-stale_example =
    create_conversation-stale chooser boss (b'n' ∷ []) (b's' ∷ []) no_targets captured 1
      chosen_runs.2 chosen_runs.3 chosen_runs.4 (omega arith)
      (Commits.one_more Commits.none_yet uuids ((boss, captured_owner) ∷ []) captured_owner
        (refl, tt) targeted.3 targeted.2 refl)
      (omega arith) (omega arith)

abbrev no_requests : Index
no_requests = record { version = 4; next_order = 1; owners = []; rejected = []; cleared = [] }

abbrev quiet_codex : CodexStatus
quiet_codex = record {
  read_status = λ t. some (b'i' ∷ []);
  has_control = true;
  active_turn = λ t. none;
}

quiet_activity :
    ((read_activity quiet_codex boss desk chat no_requests no_requests).0.busy ≡ false)
    × (is_empty chat ≡ false)
unfolding catalog_activity read_activity text text_eq is_empty len valid_utf8 is_space trim_left
    trim_right trim_space contains_rune contains_any is_lower is_digit is_hex after_prefix
    has_prefix is_task_id is_safe_id is_reason is_sha256 valid_single_line valid_attachment_name
    split_path is_plain_segment is_clean_below lookup insert delete contains session_key is_active
    member scan_task scan_tasks scan_owners scan_cleared scan_rejected validate_index find_task
    replace_task find_task_locked find_source_in find_by_source_locked find find_by_source
    active_task state_eq valid_state terminal valid_outcome is_pending is_delivered
quiet_activity = (refl, refl)

read_activity-idle_example :
    (active_task no_requests boss desk chat ≡ none)
    × ((status : Text) × (quiet_codex.read_status chat ≡ some status)
        × (text_eq status (text "active") ≡ false))
read_activity-idle_example =
    read_activity-idle quiet_codex boss desk chat no_requests no_requests quiet_activity.1
      quiet_activity.0

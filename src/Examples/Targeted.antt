-- ===== src/Examples/Targeted.antt =====
-- core/target: the theorems, applied.
use codex_link_clawbot.Prelude.{
  if◌then◌else◌, ok, err, ◌≡◌, refl, subst, ◌⊎◌, true, false, ◌&&◌, some, [], ◌∷◌, arith,
}
use codex_link_clawbot.Text.{
  Text, text, text_eq, is_empty, len, valid_utf8, is_space, trim_left, trim_right, trim_space,
  contains_rune, contains_any, is_lower, is_digit, is_hex, after_prefix, has_prefix, is_task_id,
  is_safe_id, is_reason, is_sha256, valid_single_line, valid_attachment_name, split_path,
  is_plain_segment, is_clean_below,
}
use codex_link_clawbot.Map.{lookup, insert, delete, contains}
use codex_link_clawbot.Request.Storage.{
  delete_missing, is_changed, put_changed, write_delta, cascade, insert_tasks, insert_owners,
  snapshot_index, write_index, save_locked, update_tables,
}
use codex_link_clawbot.Target.{
  intent_eq, bad_intent, bad_current, validate_owner, validate_owners, validate_targets,
  empty_owner, owner_of, intent_in, current_locked, snapshot_target, resolve, same_current,
  has_moved, bump, bump_moved, write_owner, write_owners, commit_targets, find_intent,
  select_intent, new_intent, remember, capture, chosen_intent, select_locked, select_thread,
  new_conversation, bind, clear_current, clear_thread, Intent, OwnerState, selection_changed,
  Targets, TargetWorld,
}
use codex_link_clawbot.Target.Moves.{select_thread-stale, Commits}
use codex_link_clawbot.Target.Bindings.{selection_of, bind-resolve, capture-once}
use codex_link_clawbot.Target.Rows.{commit_targets-Agrees, OwnerIsMap, AgreesIfAny}

abbrev pub boss : Text
boss = b'o' ∷ []

abbrev pub desk : Text
desk = b'w' ∷ []

abbrev pub chat : Text
chat = b't' ∷ []

-- A world whose new UUIDs are the texts of one number.
abbrev pub uuids : TargetWorld
uuids = record { is_uuid = λ t. true; new_id = λ k. k ∷ []; commits = true }

abbrev pub no_targets : Targets
no_targets = record {
  default_workspace = desk;
  version = 1;
  owners = [];
  revisions = [];
  rows = [];
}

abbrev first_intent : Intent
first_intent = new_intent uuids desk []

abbrev pub captured : Targets
captured = (capture uuids boss no_targets).0

abbrev pub captured_owner : OwnerState
captured_owner = select_intent first_intent desk (empty_owner desk)

abbrev bound : Targets
bound = (bind uuids boss first_intent.id chat captured).0

pub targeted :
    (capture uuids boss no_targets ≡ (captured, ok first_intent))
    × (bind uuids boss first_intent.id chat captured ≡ (bound, ok tt))
    × (commit_targets uuids ((boss, captured_owner) ∷ []) no_targets ≡ ok captured)
    × (lookup boss ((boss, captured_owner) ∷ []) ≡ some captured_owner)
    × (is_empty (trim_space chat) ≡ false)
unfolding intent_eq bad_intent bad_current validate_owner validate_owners validate_targets owner_of
    intent_in current_locked snapshot_target resolve same_current has_moved bump bump_moved
    write_owner write_owners commit_targets find_intent remember capture chosen_intent select_locked
    select_thread new_conversation bind clear_current clear_thread text text_eq is_empty len
    valid_utf8 is_space trim_left trim_right trim_space contains_rune contains_any is_lower is_digit
    is_hex after_prefix has_prefix is_task_id is_safe_id is_reason is_sha256 valid_single_line
    valid_attachment_name split_path is_plain_segment is_clean_below lookup insert delete contains
    delete_missing is_changed put_changed write_delta cascade insert_tasks insert_owners
    snapshot_index write_index save_locked update_tables
targeted = (refl, refl, refl, refl, refl)

capture-once_example : capture uuids boss captured ≡ (captured, ok first_intent)
capture-once_example = capture-once uuids uuids boss no_targets targeted.0

select_thread-stale_example :
    select_thread uuids boss desk chat (snapshot_target boss no_targets) captured
    ≡ (captured, err selection_changed)
unfolding lookup has_moved
select_thread-stale_example =
    select_thread-stale uuids boss desk chat no_targets captured 1 (omega arith)
      (Commits.one_more Commits.none_yet uuids ((boss, captured_owner) ∷ []) captured_owner
        (refl, tt) targeted.3 targeted.2 refl)
      (omega arith) (omega arith) targeted.4

bind-resolve_example :
    (i : Intent) × (resolve boss first_intent.id captured ≡ ok i)
    × ((is_empty i.thread_id ≡ true) ⊎ (i.thread_id ≡ chat))
    × (resolve boss first_intent.id bound ≡ (
        if text_eq boss boss && text_eq first_intent.id first_intent.id
        then ok (record i { thread_id = chat })
        else resolve boss first_intent.id captured))
    × (selection_of boss bound ≡ selection_of boss captured)
bind-resolve_example =
    bind-resolve uuids boss first_intent.id chat captured boss first_intent.id targeted.1

captured_owner-IsMap :
    (j : Text) (o : OwnerState) → lookup j ((boss, captured_owner) ∷ []) ≡ some o → OwnerIsMap o
unfolding lookup insert
captured_owner-IsMap j o h =
    let same : captured_owner ≡ o = ground arith in
    subst (λ (x : OwnerState). OwnerIsMap x) same
      (record { current_keys = (refl, tt); intent_keys = (refl, tt) })

commit_targets-Agrees_example :
    AgreesIfAny (lookup boss captured.rows) (lookup boss captured.owners)
unfolding lookup
commit_targets-Agrees_example =
    commit_targets-Agrees uuids ((boss, captured_owner) ∷ []) no_targets (refl, tt)
      captured_owner-IsMap (λ j. AgreesIfAny.neither refl refl) targeted.2 boss

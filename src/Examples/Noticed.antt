-- ===== src/Examples/Noticed.antt =====
-- core/delivery: the theorems, applied.
use codex_link_clawbot.Prelude.{
  ok, length, filter, ℕ, zero, suc, ◌*◌, ◌≤◌, ◌≡◌, refl, Bool, true, false, none, some, [], ◌∷◌,
  ◌++◌, arith,
}
use codex_link_clawbot.Text.{
  Text, text, text_eq, is_empty, len, valid_utf8, is_space, trim_left, trim_right, trim_space,
  contains_rune, contains_any, is_lower, is_digit, is_hex, after_prefix, has_prefix, is_task_id,
  is_safe_id, is_reason, is_sha256, valid_single_line, valid_attachment_name, split_path,
  is_plain_segment, is_clean_below,
}
use codex_link_clawbot.Map.{lookup, insert, delete, contains, get_or}
use codex_link_clawbot.Notice.{
  max_pending_notices_per_owner, second, valid_kind, is_hex_digit, valid_notice_id,
  valid_notice_line, valid_optional_notice_line, valid_notice_body, trim_notice, good_notice_input,
  member_of, good_notice, scan_notices, scan_notice_owners, validate_notices, put_notices,
  write_notices, save_notices, is_live, remove_expired, has_expired, save_or_restore, swept_answer,
  find_key, notice_of, enqueue_trimmed, enqueue, list_notices, complete_notices, group_notices,
  open_notices, Notice, NoticeInput, Notices, NoticeWorld,
}
use codex_link_clawbot.Notice.Pending.{pending_at, joined, enqueue-pending}
use codex_link_clawbot.Notice.Stored.{enqueue-IsNoticeState, IsNoticeState}
use codex_link_clawbot.Notice.Reached.{
  NoticesReachable-valid, enqueue-once, NoticeStep, NoticesReachable,
}
use codex_link_clawbot.Notice.Admitted.{enqueue-total}

abbrev reader : Text
reader = b'o' ∷ []

abbrev digits : ℕ → ℕ → Text
digits zero c = []
digits (suc n) c = c ∷ digits n c

abbrev notice_id : Text
notice_id = digits 16 b'a'

abbrev recovery_kind : Text
recovery_kind =
    b't' ∷ b'a' ∷ b's' ∷ b'k' ∷ b'_' ∷ b'r' ∷ b'e' ∷ b'c' ∷ b'o' ∷ b'v' ∷ b'e' ∷ b'r' ∷ b'y' ∷ []

abbrev told : NoticeInput
told = record {
  kind = recovery_kind;
  dedup_key = b'k' ∷ [];
  reference_id = [];
  title = b't' ∷ [];
  body = b'b' ∷ [];
  ttl = 10 * second;
}

abbrev at_five : NoticeWorld
at_five = record { now = 5 * second; new_id = some notice_id; commits = true }

abbrev at_nine : NoticeWorld
at_nine = record { now = 9 * second; new_id = none; commits = true }

abbrev no_notices : Notices
no_notices = record { version = 1; owners = []; rows = [] }

abbrev first_notice : Notice
first_notice = notice_of at_five told notice_id

abbrev one_notice : Notices
one_notice = (enqueue at_five reader told no_notices).0

abbrev listed : Notices
listed = (list_notices at_nine reader 3 one_notice).0

abbrev read_notices : Notices
read_notices = (complete_notices at_nine reader (notice_id ∷ []) one_notice).0

noticed :
    (enqueue at_five reader told no_notices ≡ (one_notice, ok (first_notice, false)))
    × (list_notices at_nine reader 3 one_notice ≡ (listed, ok (first_notice ∷ [])))
    × (complete_notices at_nine reader (notice_id ∷ []) one_notice ≡ (read_notices, ok tt))
    × (open_notices [] [] ≡ ok no_notices)
    × (good_notice_input (trim_space reader) (trim_notice told) ≡ true)
    × (valid_notice_id notice_id ≡ true)
    × (trim_space told.dedup_key ≡ trim_space told.dedup_key)
    × (scan_notice_owners [] ≡ ok tt)
    × (member_of notice_id [] ≡ false)
    × (lookup reader (one_notice.owners) ≡ some (first_notice ∷ []))
unfolding valid_kind is_hex_digit valid_notice_id valid_notice_line valid_optional_notice_line
    valid_notice_body trim_notice good_notice_input member_of good_notice scan_notices
    scan_notice_owners validate_notices put_notices write_notices save_notices remove_expired
    has_expired save_or_restore swept_answer find_key enqueue_trimmed enqueue list_notices
    complete_notices group_notices open_notices text text_eq is_empty len valid_utf8 is_space
    trim_left trim_right trim_space contains_rune contains_any is_lower is_digit is_hex after_prefix
    has_prefix is_task_id is_safe_id is_reason is_sha256 valid_single_line valid_attachment_name
    split_path is_plain_segment is_clean_below lookup insert delete contains
noticed = (refl, refl, refl, refl, refl, refl, refl, refl, refl, refl)

no_notices-IsNoticeState : IsNoticeState no_notices
no_notices-IsNoticeState = record { is_version = refl; is_scanned = noticed.7; has_distinct = tt }

one_notice-IsNoticeState : IsNoticeState one_notice
one_notice-IsNoticeState =
    enqueue-IsNoticeState at_five reader told no_notices no_notices-IsNoticeState

enqueue-pending_example :
    pending_at reader 6 (enqueue at_five reader told no_notices).0
    ≡ pending_at reader 6 no_notices
      ++ filter
          (is_live 6)
          (joined (trim_space reader) reader (enqueue at_five reader told no_notices).1)
enqueue-pending_example = enqueue-pending at_five reader told no_notices reader 6 tt (omega arith)

NoticesReachable-valid_example :
    (validate_notices one_notice ≡ ok tt)
    × (length (get_or reader [] one_notice.owners) ≤ max_pending_notices_per_owner)
NoticesReachable-valid_example = NoticesReachable-valid reader (
    NoticesReachable.next_step (NoticesReachable.opened [] [] noticed.3)
      (NoticeStep.enqueues at_five reader told))

enqueue-once_example : (enqueue at_nine reader told one_notice).1 ≡ ok (first_notice, true)
enqueue-once_example =
    enqueue-once at_five at_nine reader told told no_notices no_notices-IsNoticeState noticed.0 refl
      noticed.4 refl refl

enqueue-total_example :
    (n : Notice) × (b : Bool) × ((enqueue at_five reader told no_notices).1 ≡ ok (n, b))
unfolding lookup
enqueue-total_example =
    enqueue-total at_five reader told no_notices notice_id no_notices-IsNoticeState noticed.4
      (omega arith) (omega arith) refl refl noticed.5 noticed.8 (omega arith)

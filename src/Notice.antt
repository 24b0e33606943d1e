-- ===== src/Notice.antt =====
-- core/delivery/pending_notice.go: the notices that wait until an owner can be reached again.
-- A time is in nanoseconds; the expiry of a notice is in Unix seconds.
use codex_link_clawbot.Prelude.{
  ltb, leb, ◌==◌, if◌then◌else◌, reject_if, ◌>>=◌, ◌>>◌, Fallible, ok, err, length, take, filter,
  all, any, ℕ, ◌+◌, ◌-◌, ◌*◌, ◌/◌, Bool, true, false, ◌&&◌, ◌||◌, not, Option, none, some, List, [],
  ◌∷◌, ◌++◌, map,
}
use codex_link_clawbot.Text.{
  Text, text, text_eq, is_empty, len, rune_count, trim_space, contains_rune, contains_any, is_hex,
}
use codex_link_clawbot.Map.{Map, insert, delete, get_or}
pub mod Scan
pub mod Pending
pub mod Completed
pub mod Stored
pub mod Reached
pub mod Admitted

pub record Notice : Type 0 where
  pub id : Text
  pub kind : Text
  pub dedup_key : Text
  pub reference_id : Text
  pub title : Text
  pub body : Text
  pub created_at : ℕ
  pub expires_at : ℕ

-- `NoticeInput`; a lifetime that is not positive is 0.
pub record NoticeInput : Type 0 where
  pub kind : Text
  pub dedup_key : Text
  pub reference_id : Text
  pub title : Text
  pub body : Text
  pub ttl : ℕ

pub data NoticeError : Type 0 where
  invalid_notice_input notice_capacity_exceeded no_notice_id notice_owner_required : NoticeError
  invalid_completion invalid_notice_id invalid_notice_schema invalid_notice_owner : NoticeError
  invalid_notice_record notices_not_saved : NoticeError

-- `NoticeStore`, with the rows of `notices` by their id.
pub record Notices : Type 0 where
  pub version : ℕ
  pub owners : Map (List Notice)
  pub rows : Map (Text × Notice)

-- What a call takes from outside: the clock, the random id, and whether SQLite commits.
pub record NoticeWorld : Type 0 where
  pub now : ℕ
  pub new_id : Option Text
  pub commits : Bool

abbrev pub max_pending_notices_per_owner : ℕ
max_pending_notices_per_owner = 32

abbrev pub max_pending_notice_body_runes : ℕ
max_pending_notice_body_runes = 6000

abbrev pub second : ℕ
second = 1000000000

abbrev pub max_pending_notice_ttl : ℕ
max_pending_notice_ttl = 30 * 24 * 3600 * second

unfoldable pub valid_kind : Text → Bool
unfolding text
valid_kind kind = text_eq kind (text "task_recovery")

unfoldable pub is_hex_digit : ℕ → Bool
is_hex_digit c = is_hex c || (leb b'A' c && leb c b'F')

-- `validNoticeID`
unfoldable pub valid_notice_id : Text → Bool
unfolding is_hex_digit
valid_notice_id value = len value == 16 && all is_hex_digit value

-- `validNoticeLine`
unfoldable pub valid_notice_line : Text → ℕ → Bool
valid_notice_line raw max_runes =
    let value = trim_space raw in
    not (is_empty value)
    && leb (rune_count value) max_runes
    && not (contains_any value (13 ∷ 10 ∷ 0 ∷ []))

-- `validOptionalNoticeLine`
unfoldable pub valid_optional_notice_line : Text → ℕ → Bool
unfolding valid_notice_line
valid_optional_notice_line value max_runes =
    is_empty (trim_space value) || valid_notice_line value max_runes

-- `validNoticeBody`
unfoldable pub valid_notice_body : Text → Bool
valid_notice_body raw =
    let value = trim_space raw in
    not (is_empty value)
    && leb (rune_count value) max_pending_notice_body_runes
    && not (contains_rune value 0)

unfoldable pub trim_notice : NoticeInput → NoticeInput
trim_notice input = record input {
  dedup_key = trim_space input.dedup_key;
  reference_id = trim_space input.reference_id;
  title = trim_space input.title;
  body = trim_space input.body;
}

-- The checks of `Enqueue` on an owner and an input that are trimmed.
unfoldable pub good_notice_input : Text → NoticeInput → Bool
unfolding valid_notice_line valid_optional_notice_line valid_notice_body valid_kind
good_notice_input owner input =
    valid_notice_line owner 512
    && valid_notice_line input.dedup_key 256
    && valid_optional_notice_line input.reference_id 256
    && valid_notice_line input.title 120
    && valid_notice_body input.body
    && valid_kind input.kind
    && ltb 0 input.ttl
    && leb input.ttl max_pending_notice_ttl

unfoldable pub member_of : Text → List Text → Bool
member_of k keys = any (λ j. text_eq j k) keys

-- What `validate` asks of a notice by itself.
unfoldable pub good_notice : Notice → Bool
unfolding valid_notice_id valid_kind valid_notice_line valid_optional_notice_line valid_notice_body
good_notice n =
    valid_notice_id n.id
    && valid_kind n.kind
    && valid_notice_line n.dedup_key 256
    && valid_optional_notice_line n.reference_id 256
    && valid_notice_line n.title 120
    && valid_notice_body n.body
    && ltb 0 n.created_at
    && ltb n.created_at n.expires_at
    && leb (n.expires_at - n.created_at) (max_pending_notice_ttl / second)

-- The inner loop of `validate`, with the ids and the keys that it has seen.
unfoldable pub scan_notices : List Text → List Text → List Notice → Bool
unfolding good_notice member_of
scan_notices ids keys [] = true
scan_notices ids keys (n ∷ rest) =
    good_notice n
    && not (member_of n.id ids)
    && not (member_of n.dedup_key keys)
    && scan_notices (n.id ∷ ids) (n.dedup_key ∷ keys) rest

-- The outer loop of `validate`.
unfoldable pub scan_notice_owners : Map (List Notice) → Fallible NoticeError (Unit {0})
unfolding valid_notice_line scan_notices
scan_notice_owners [] = ok tt
scan_notice_owners ((owner, ns) ∷ rest) = do
  reject_if (not (valid_notice_line owner 512) || ltb max_pending_notices_per_owner (length ns))
      invalid_notice_owner
  reject_if (not (scan_notices [] [] ns)) invalid_notice_record
  scan_notice_owners rest

-- `validate`
unfoldable pub validate_notices : Notices → Fallible NoticeError (Unit {0})
unfolding scan_notice_owners
validate_notices s = do
  reject_if (not (s.version == 1)) invalid_notice_schema
  scan_notice_owners s.owners

-- The inserts of one owner's notices.
unfoldable pub put_notices : Text → List Notice → Map (Text × Notice) → Map (Text × Notice)
put_notices owner [] rows = rows
put_notices owner (n ∷ rest) rows = put_notices owner rest (insert n.id (owner, n) rows)

unfoldable pub write_notices : Map (List Notice) → Map (Text × Notice) → Map (Text × Notice)
unfolding put_notices
write_notices [] rows = rows
write_notices ((owner, ns) ∷ rest) rows = write_notices rest (put_notices owner ns rows)

-- `saveLocked`
unfoldable pub save_notices : NoticeWorld → Notices → Fallible NoticeError Notices
unfolding validate_notices write_notices
save_notices w s = do
  validate_notices s
  if w.commits then ok (record s { rows = write_notices s.owners [] }) else err notices_not_saved

abbrev pub is_live : ℕ → Notice → Bool
is_live now n = ltb now n.expires_at

-- `removeExpiredLocked`: the owners that it leaves.
unfoldable pub remove_expired : ℕ → Map (List Notice) → Map (List Notice)
remove_expired now [] = []
remove_expired now ((owner, ns) ∷ rest) =
    let kept = filter (is_live now) ns in
    let later = remove_expired now rest in
    elim kept [ [] ↦ later | n ∷ more ↦ (owner, n ∷ more) ∷ later ]

-- `removeExpiredLocked`: whether it dropped any.
unfoldable pub has_expired : ℕ → Map (List Notice) → Bool
has_expired now owners = any (λ e. any (λ n. not (is_live now n)) e.1) owners

-- A save of the next state, or the owners of the old one.
unfoldable pub save_or_restore :
    {A : Type 0}
    → NoticeWorld
    → Notices
    → Notices
    → Fallible NoticeError A
    → Notices × Fallible NoticeError A
unfolding save_notices
save_or_restore w s next answer = elim (save_notices w next) [
  | ok saved ↦ (saved, answer)
  | err why ↦ (record next { owners = s.owners }, err why)
]

-- The state after the sweep, which is saved when the sweep dropped a notice.
unfoldable pub swept_answer :
    {A : Type 0} → NoticeWorld → Notices → Fallible NoticeError A → Notices × Fallible NoticeError A
unfolding save_or_restore remove_expired has_expired
swept_answer w s answer =
    let swept = record s { owners = remove_expired (w.now / second) s.owners } in
    if has_expired (w.now / second) s.owners
    then save_or_restore w s swept answer
    else (swept, answer)

unfoldable pub find_key : Text → List Notice → Option Notice
find_key key [] = none
find_key key (n ∷ rest) =
    let later = find_key key rest in if text_eq n.dedup_key key then some n else later

abbrev pub notice_of : NoticeWorld → NoticeInput → Text → Notice
notice_of w input id = record {
  id = id;
  kind = input.kind;
  dedup_key = input.dedup_key;
  reference_id = input.reference_id;
  title = input.title;
  body = input.body;
  created_at = w.now / second;
  expires_at = (w.now + input.ttl) / second;
}

-- `Enqueue` under the lock.
unfoldable pub enqueue_trimmed :
    NoticeWorld → Text → NoticeInput → Notices → Notices × Fallible NoticeError (Notice × Bool)
unfolding swept_answer find_key
enqueue_trimmed w owner input s =
    let swept = record s { owners = remove_expired (w.now / second) s.owners } in
    let mine = get_or owner [] swept.owners in
    elim (find_key input.dedup_key mine) [
      | some n ↦ swept_answer w s (ok (n, true))
      | none ↦
          if leb max_pending_notices_per_owner (length mine)
          then swept_answer w s (err notice_capacity_exceeded)
          else elim w.new_id [
            | none ↦ (swept, err no_notice_id)
            | some id ↦
                let n = notice_of w input id in
                save_or_restore w s
                  (record swept { owners = insert owner (mine ++ (n ∷ [])) swept.owners })
                  (ok (n, false))
          ]
    ]

-- `Enqueue`
unfoldable pub enqueue :
    NoticeWorld → Text → NoticeInput → Notices → Notices × Fallible NoticeError (Notice × Bool)
unfolding enqueue_trimmed trim_notice good_notice_input
enqueue w owner input s =
    if good_notice_input (trim_space owner) (trim_notice input)
    then enqueue_trimmed w (trim_space owner) (trim_notice input) s
    else (s, err invalid_notice_input)

-- `List`, on a limit that is 0 where it is not positive.
unfoldable pub list_notices :
    NoticeWorld → Text → ℕ → Notices → Notices × Fallible NoticeError (List Notice)
unfolding swept_answer valid_notice_line
list_notices w raw limit s =
    let owner = trim_space raw in
    let most =
      if limit == 0 || ltb max_pending_notices_per_owner limit
      then max_pending_notices_per_owner
      else limit in
    if not (valid_notice_line owner 512)
    then (s, err notice_owner_required)
    else swept_answer w s
        (ok (take most (get_or owner [] (remove_expired (w.now / second) s.owners))))

-- Deleting an owner that has none left, or keeping the rest.
abbrev pub with_kept : Text → List Notice → Map (List Notice) → Map (List Notice)
with_kept owner [] owners = delete owner owners
with_kept owner (n ∷ kept) owners = insert owner (n ∷ kept) owners

-- `Complete`
unfoldable pub complete_notices :
    NoticeWorld → Text → List Text → Notices → Notices × Fallible NoticeError (Unit {0})
unfolding save_or_restore valid_notice_line valid_notice_id member_of
complete_notices w raw ids s =
    let owner = trim_space raw in
    let selected = map trim_space ids in
    let previous = get_or owner [] s.owners in
    let kept = filter (λ n. not (member_of n.id selected)) previous in
    if not (valid_notice_line owner 512) || length ids == 0
    then (s, err invalid_completion)
    else if not (all valid_notice_id selected)
    then (s, err invalid_notice_id)
    else if length kept == length previous
    then (s, ok tt)
    else save_or_restore w s (record s { owners = with_kept owner kept s.owners }) (ok tt)

-- The loop of `OpenNoticeStore` over the rows, in the order of the query.
unfoldable pub group_notices : List (Text × Notice) → Map (List Notice) → Map (List Notice)
group_notices [] owners = owners
group_notices ((owner, n) ∷ rest) owners =
    group_notices rest (insert owner (get_or owner [] owners ++ (n ∷ [])) owners)

-- `OpenNoticeStore` on the rows that its query returns, the ones of old deployments deleted before.
unfoldable pub open_notices :
    List (Text × Notice) → Map (Text × Notice) → Fallible NoticeError Notices
unfolding group_notices validate_notices
open_notices queried rows =
    let s : Notices = record { version = 1; owners = group_notices queried []; rows = rows } in
    validate_notices s >>= λ u. ok s

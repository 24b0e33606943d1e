-- ===== src/Notice/Admitted.antt =====
-- core/delivery/pending_notice.go: an enqueue that `validate` never refuses.
use codex_link_clawbot.Prelude.{
  ltb, leb, Option-cases, Fallible, ok, length, length-append, ℕ, ◌-◌, ◌/◌, ◌≤◌, ◌<◌, ◌≡◌, refl,
  inl, inr, Bool, true, false, none, some, List, [], ◌∷◌, ◌++◌, map, arith,
}
use codex_link_clawbot.Text.{Text, trim_space}
use codex_link_clawbot.Map.{lookup, get_or}
use codex_link_clawbot.Notice.{
  max_pending_notices_per_owner, second, max_pending_notice_ttl, valid_notice_id, valid_notice_line,
  trim_notice, good_notice_input, member_of, good_notice, scan_notices, validate_notices,
  save_notices, is_live, save_or_restore, find_key, notice_of, enqueue_trimmed, enqueue, Notice,
  NoticeInput, NoticeError, Notices, NoticeWorld,
}
use codex_link_clawbot.Notice.Scan.{
  scan_notices-filter, scan_notices-append, scan_notice_owners-lookup, scan_notice_owners-insert,
  scan_notice_owners-remove_expired,
}
use codex_link_clawbot.Notice.Pending.{pending_at, remove_expired-get, swept_owners, enqueued}
use codex_link_clawbot.Notice.Stored.{validate_notices_iff, IsNoticeState}
use codex_link_clawbot.Notice.Reached.{swept_answer-ok}

-- A checked input with a random id makes a notice that `validate` accepts.
notice_of-good :
    (w : NoticeWorld) (owner : Text) (input : NoticeInput) (id : Text)
    → good_notice_input owner input ≡ true
    → valid_notice_id id ≡ true
    → second ≤ w.now
    → second ≤ input.ttl
    → good_notice (notice_of w input id) ≡ true
unfolding good_notice good_notice_input
notice_of-good w owner input id good is_id started_clock long =
    let n : Notice = notice_of w input id in
    let most : input.ttl ≤ max_pending_notice_ttl = ground (arith, good) in
    let after : ltb n.created_at n.expires_at ≡ true = ground arith in
    let born : ltb 0 n.created_at ≡ true = ground arith in
    let short : leb (n.expires_at - n.created_at) (max_pending_notice_ttl / second) ≡ true =
      ground arith in
    ground (arith, good, is_id, after, born, short)

scan_notices_none : scan_notices [] [] [] ≡ true
unfolding scan_notices
scan_notices_none = refl

good_notice_input-line :
    (owner : Text) (input : NoticeInput)
    → good_notice_input owner input ≡ true
    → valid_notice_line owner 512 ≡ true
unfolding good_notice_input
good_notice_input-line owner input good = ground arith

trim_notice-ttl : (input : NoticeInput) → second ≤ input.ttl → second ≤ (trim_notice input).ttl
unfolding trim_notice
trim_notice-ttl input long = long

pending_at-scanned :
    (j : Text) (t : ℕ) (s : Notices)
    → IsNoticeState s
    → scan_notices [] [] (pending_at j t s) ≡ true
pending_at-scanned j t s state =
    scan_notices-filter (is_live t) (get_or j [] s.owners)
      (elim (Option-cases (lookup j s.owners)) [
        | inl n ↦ ground (arith, n, scan_notices_none)
        | inr (ns, there) ↦
            ground (arith, there, scan_notice_owners-lookup j s.owners state.is_scanned there)
      ])

enqueued-valid :
    (w : NoticeWorld) (owner : Text) (input : NoticeInput) (s : Notices) (id : Text)
    → IsNoticeState s
    → valid_notice_line owner 512 ≡ true
    → good_notice (notice_of w input id) ≡ true
    → find_key input.dedup_key (pending_at owner (w.now / second) s) ≡ none
    → member_of id (map (λ n. n.id) (pending_at owner (w.now / second) s)) ≡ false
    → length (pending_at owner (w.now / second) s) < max_pending_notices_per_owner
    → validate_notices (enqueued w owner input s id) ≡ ok tt
enqueued-valid w owner input s id state line good fresh fresh_id room =
    let n : Notice = notice_of w input id in
    let mine : List Notice = get_or owner [] (swept_owners w s) in
    let pending : mine ≡ pending_at owner (w.now / second) s =
      remove_expired-get owner (w.now / second) s.owners state.has_distinct in
    let scanned =
      scan_notices-append n (pending_at owner (w.now / second) s) good fresh_id fresh
        (pending_at-scanned owner (w.now / second) s state) in
    let few : leb (length (mine ++ (n ∷ []))) max_pending_notices_per_owner ≡ true =
      ground (arith, pending, length-append mine (n ∷ [])) in
    (validate_notices_iff (enqueued w owner input s id)).1 (
      state.is_version,
      scan_notice_owners-insert owner (mine ++ (n ∷ [])) (swept_owners w s)
          (ground (arith, line, pending, scanned, few))
          (scan_notice_owners-remove_expired (w.now / second) s.owners state.is_scanned),
    )

-- An enqueue of a checked input ends well whenever SQLite commits: with room among the owner's
-- pending notices, a new random id, a clock past its first second and a lifetime of a second or
-- more, the validation before the save never refuses the notice.
pub enqueue-total :
    (w : NoticeWorld) (owner : Text) (input : NoticeInput) (s : Notices) (id : Text)
    → IsNoticeState s
    → good_notice_input (trim_space owner) (trim_notice input) ≡ true
    → second ≤ w.now
    → second ≤ input.ttl
    → w.commits ≡ true
    → w.new_id ≡ some id
    → valid_notice_id id ≡ true
    → member_of id (map (λ n. n.id) (pending_at (trim_space owner) (w.now / second) s)) ≡ false
    → length (pending_at (trim_space owner) (w.now / second) s) < max_pending_notices_per_owner
    → (n : Notice) × (b : Bool) × ((enqueue w owner input s).1 ≡ ok (n, b))
unfolding enqueue enqueue_trimmed save_or_restore save_notices
enqueue-total w owner input s id state good started_clock long commits made is_id fresh_id room =
    let owner' : Text = trim_space owner in
    let input' : NoticeInput = trim_notice input in
    let mine : List Notice = get_or owner' [] (swept_owners w s) in
    let n : Notice = notice_of w input' id in
    let pending : mine ≡ pending_at owner' (w.now / second) s =
      remove_expired-get owner' (w.now / second) s.owners state.has_distinct in
    let told : Notice → Fallible NoticeError (Notice × Bool) = λ x. ok (x, true) in
    elim (Option-cases (find_key input'.dedup_key mine)) [
      | inr (x, there) ↦
          (x, true, ground (arith, good, there, swept_answer-ok w s (told x) state commits))
      | inl fresh ↦
          let fits : leb max_pending_notices_per_owner (length mine) ≡ false =
            ground (arith, pending, room) in
          let line = good_notice_input-line owner' input' good in
          let valid =
            enqueued-valid w owner' input' s id state line
              (notice_of-good w owner' input' id good is_id started_clock
                (trim_notice-ttl input long))
              (ground (arith, pending, fresh)) fresh_id room in
          (n, false, ground (arith, good, fresh, fits, made, valid, commits))
    ]

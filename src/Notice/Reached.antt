-- ===== src/Notice/Reached.antt =====
-- core/delivery/pending_notice.go: a run of operations, a repeated enqueue, and an enqueue that
-- must end well.
use codex_link_clawbot.Prelude.{
  Bool-cases, Option-cases, Fallible-cases, Fallible, ok, length, filter, ℕ, ◌/◌, ◌≤◌, ◌≡◌, refl,
  ap, subst, inl, inr, Bool, true, none, some, List, [], ◌∷◌, ◌++◌, arith,
}
use codex_link_clawbot.Text.{Text, text_eq_refl, trim_space}
use codex_link_clawbot.Map.{
  Map, lookup, insert, get_or, lookup-insert_self, HasDistinctKeys, insert-HasDistinctKeys,
}
use codex_link_clawbot.Notice.{
  max_pending_notices_per_owner, second, trim_notice, good_notice_input, validate_notices,
  save_notices, is_live, save_or_restore, swept_answer, find_key, notice_of, enqueue_trimmed,
  enqueue, list_notices, complete_notices, group_notices, open_notices, Notice, NoticeInput,
  NoticeError, Notices, NoticeWorld,
}
use codex_link_clawbot.Notice.Scan.{scan_notice_owners-lookup, scan_notice_owners-remove_expired}
use codex_link_clawbot.Notice.Pending.{
  remove_expired-get, swept_owners, enqueue_trimmed-cases, refused, known, added,
}
use codex_link_clawbot.Notice.Stored.{
  validate_notices_iff, enqueue-IsNoticeState, list_notices-IsNoticeState,
  complete_notices-IsNoticeState, IsNoticeState,
}

group_notices-HasDistinctKeys :
    (queried : List (Text × Notice)) (owners : Map (List Notice))
    → HasDistinctKeys owners
    → HasDistinctKeys (group_notices queried owners)
unfolding group_notices
group_notices-HasDistinctKeys [] owners d = d
group_notices-HasDistinctKeys ((owner, n) ∷ rest) owners d =
    group_notices-HasDistinctKeys rest (insert owner (get_or owner [] owners ++ (n ∷ [])) owners)
      (insert-HasDistinctKeys owner (get_or owner [] owners ++ (n ∷ [])) owners d)

pub open_notices-IsNoticeState :
    (queried : List (Text × Notice)) (rows : Map (Text × Notice)) {s : Notices}
    → open_notices queried rows ≡ ok s
    → IsNoticeState s
unfolding open_notices
open_notices-IsNoticeState queried rows {s} h =
    let loaded : Notices = record { version = 1; owners = group_notices queried []; rows = rows } in
    elim (Fallible-cases (validate_notices loaded)) [
      | inr (e, bad) ↦ absurd (ground arith)
      | inl (u, valid) ↦
          let same : loaded ≡ s = ground arith in
          subst (λ (x : Notices). IsNoticeState x) same
            (record {
              is_version = refl;
              is_scanned = ((validate_notices_iff loaded).0 valid).1;
              has_distinct = group_notices-HasDistinctKeys queried [] tt;
            })
    ]

pub data NoticeStep (s : Notices) : Notices → Type 0 where
  enqueues :
      (w : NoticeWorld) (owner : Text) (input : NoticeInput)
      → NoticeStep s (enqueue w owner input s).0
  lists :
      (w : NoticeWorld) (owner : Text) (limit : ℕ) → NoticeStep s (list_notices w owner limit s).0
  completes :
      (w : NoticeWorld) (owner : Text) (ids : List Text)
      → NoticeStep s (complete_notices w owner ids s).0

pub data NoticesReachable : Notices → Type 0 where
  opened :
      (queried : List (Text × Notice)) (rows : Map (Text × Notice)) {s : Notices}
      → open_notices queried rows ≡ ok s
      → NoticesReachable s
  next_step : {s s' : Notices} → NoticesReachable s → NoticeStep s s' → NoticesReachable s'

pub NoticesReachable-IsNoticeState : {s : Notices} → NoticesReachable s → IsNoticeState s
NoticesReachable-IsNoticeState (NoticesReachable.opened queried rows h) =
    open_notices-IsNoticeState queried rows h
NoticesReachable-IsNoticeState
      (NoticesReachable.next_step {s} run (NoticeStep.enqueues w owner input)) =
    enqueue-IsNoticeState w owner input s (NoticesReachable-IsNoticeState run)
NoticesReachable-IsNoticeState
      (NoticesReachable.next_step {s} run (NoticeStep.lists w owner limit)) =
    list_notices-IsNoticeState w owner limit s (NoticesReachable-IsNoticeState run)
NoticesReachable-IsNoticeState
      (NoticesReachable.next_step {s} run (NoticeStep.completes w owner ids)) =
    complete_notices-IsNoticeState w owner ids s (NoticesReachable-IsNoticeState run)

-- Whatever the operations are, whether they fail or not, the state in memory passes `validate`, and
-- no owner has more than 32 notices.
pub NoticesReachable-valid :
    {s : Notices} (j : Text)
    → NoticesReachable s
    → (validate_notices s ≡ ok tt) × (length (get_or j [] s.owners) ≤ max_pending_notices_per_owner)
NoticesReachable-valid {s} j run =
    let state = NoticesReachable-IsNoticeState run in
    (
      (validate_notices_iff s).1 (state.is_version, state.is_scanned),
      elim (Option-cases (lookup j s.owners)) [
        | inl n ↦ ground arith
        | inr (ns, there) ↦
            ground (arith, there, scan_notice_owners-lookup j s.owners state.is_scanned there)
      ],
    )

-- A save of a valid state that SQLite commits.
pub swept_answer-ok :
    {A : Type 0} (w : NoticeWorld) (s : Notices) (r : Fallible NoticeError A)
    → IsNoticeState s
    → w.commits ≡ true
    → (swept_answer w s r).1 ≡ r
unfolding swept_answer save_or_restore save_notices
swept_answer-ok w s r state commits =
    let swept : Notices = record s { owners = swept_owners w s } in
    let valid : validate_notices swept ≡ ok tt = (validate_notices_iff swept).1 (
      state.is_version,
      scan_notice_owners-remove_expired (w.now / second) s.owners state.is_scanned,
    ) in
    ground (arith, valid, commits)

find_key-filter :
    (key : Text) (p : Notice → Bool) (ns : List Notice) {n : Notice}
    → find_key key ns ≡ some n
    → p n ≡ true
    → find_key key (filter p ns) ≡ some n
unfolding find_key
find_key-filter key p [] h live = absurd (ground arith)
find_key-filter key p (x ∷ ns) {n} h live = ground (arith, find_key-filter key p ns {n = n})

find_key-append :
    (n : Notice) (ns : List Notice)
    → find_key n.dedup_key ns ≡ none
    → find_key n.dedup_key (ns ++ (n ∷ [])) ≡ some n
unfolding find_key
find_key-append n [] h = ground (arith, text_eq_refl n.dedup_key)
find_key-append n (x ∷ ns) h = ground (arith, find_key-append n ns)

-- The notice of an enqueue that ends well is the one that the owner has under the key then.
enqueue-find_key :
    (w : NoticeWorld) (owner : Text) (input : NoticeInput) (s : Notices) {s' : Notices} {n : Notice}
    {b : Bool}
    → IsNoticeState s
    → enqueue w owner input s ≡ (s', ok (n, b))
    → find_key (trim_space input.dedup_key) (get_or (trim_space owner) [] s'.owners) ≡ some n
unfolding enqueue trim_notice
enqueue-find_key w owner input s {s'} {n} {b} state h =
    let input' : NoticeInput = trim_notice input in
    let owner' : Text = trim_space owner in
    elim (Bool-cases (good_notice_input owner' input')) [
      | inr bad ↦ absurd (ground arith)
      | inl good ↦ elim (enqueue_trimmed-cases w owner' input' s) [
        | refused e o is ↦ absurd (ground arith)
        | known x o f is ↦ ground arith
        | added id f few valid o is ↦
            let x : Notice = notice_of w input' id in
            ground (
              arith,
              find_key-append x (get_or owner' [] (swept_owners w s)) f,
              lookup-insert_self owner' (get_or owner' [] (swept_owners w s) ++ (x ∷ []))
                  (swept_owners w s),
            )
      ]
    ]

-- An event is told once: after an enqueue that ended well, on a valid state of the notices as every
-- sequence of operations leaves it, an enqueue of the same owner and key answers the first notice
-- and that it is known. The second input passes the checks of Enqueue, with whatever title, body,
-- kind and lifetime do; the first notice has not expired; and SQLite commits.
pub enqueue-once :
    (w later : NoticeWorld) (owner : Text) (input again : NoticeInput) (s : Notices) {s' : Notices}
    {n : Notice} {b : Bool}
    → IsNoticeState s
    → enqueue w owner input s ≡ (s', ok (n, b))
    → trim_space again.dedup_key ≡ trim_space input.dedup_key
    → good_notice_input (trim_space owner) (trim_notice again) ≡ true
    → later.commits ≡ true
    → is_live (later.now / second) n ≡ true
    → (enqueue later owner again s').1 ≡ ok (n, true)
unfolding enqueue enqueue_trimmed trim_notice
enqueue-once w later owner input again s {s'} {n} {b} state h same good commits live =
    let owner' : Text = trim_space owner in
    let told : Fallible NoticeError (Notice × Bool) = ok (n, true) in
    let state' : IsNoticeState s' =
      subst (λ (x : Notices). IsNoticeState x) (ap (λ r. r.0) h)
        (enqueue-IsNoticeState w owner input s state) in
    let found = enqueue-find_key w owner input s state h in
    let kept =
      find_key-filter (trim_space input.dedup_key) (is_live (later.now / second))
        (get_or owner' [] s'.owners) found live in
    ground (
      arith,
      good,
      same,
      kept,
      remove_expired-get owner' (later.now / second) s'.owners state'.has_distinct,
      swept_answer-ok later s' told state' commits,
    )

-- ===== src/Notice/Stored.antt =====
-- core/delivery/pending_notice.go: the states that the operations reach, and when Enqueue ends
-- well.
use codex_link_clawbot.Prelude.{
  ltb, ◌==◌, if◌then◌else◌, Bool-cases, Option-cases, Fallible, ok, err, length, take, all, ℕ, ◌/◌,
  ◌≡◌, sym, subst, ◌↔◌, inl, inr, Bool, true, false, ◌||◌, not, List, [], ◌∷◌, ◌++◌, map, arith,
}
use codex_link_clawbot.Text.{Text, trim_space}
use codex_link_clawbot.Map.{
  Map, get_or, HasDistinctKeys, insert-HasDistinctKeys, delete-HasDistinctKeys,
}
use codex_link_clawbot.Notice.{
  max_pending_notices_per_owner, second, valid_notice_id, valid_notice_line, trim_notice,
  good_notice_input, scan_notice_owners, validate_notices, remove_expired, save_or_restore,
  swept_answer, find_key, notice_of, enqueue_trimmed, enqueue, list_notices, with_kept,
  complete_notices, Notice, NoticeInput, NoticeError, notice_capacity_exceeded, Notices,
  NoticeWorld,
}
use codex_link_clawbot.Notice.Scan.{scan_notice_owners-remove_expired}
use codex_link_clawbot.Notice.Pending.{
  remove_expired-HasDistinctKeys, save_or_restore-cases, swept_answer-cases, swept_owners, enqueued,
  enqueue_trimmed-cases, Enqueued, refused, known, added,
}
use codex_link_clawbot.Notice.Completed.{kept_of}

-- What `validate` asks of the state, and what a Go map gives.
pub record IsNoticeState (s : Notices) : Type 0 where
  pub is_version : s.version ≡ 1
  pub is_scanned : scan_notice_owners s.owners ≡ ok tt
  pub has_distinct : HasDistinctKeys s.owners

pub validate_notices_iff :
    (s : Notices)
    → (validate_notices s ≡ ok tt) ↔ ((s.version ≡ 1) × (scan_notice_owners s.owners ≡ ok tt))
unfolding validate_notices
validate_notices_iff s = elim (Bool-cases (s.version == 1)) [
  | inl y ↦ ((λ h. (ground arith, ground arith)), λ h. ground arith)
  | inr n ↦ ((λ h. absurd (ground arith)), λ h. absurd (ground arith))
]

save_or_restore-version :
    {A : Type 0} (w : NoticeWorld) (s next : Notices) (r : Fallible NoticeError A)
    → (save_or_restore w s next r).0.version ≡ next.version
save_or_restore-version w s next r = elim (save_or_restore-cases w s next r) [
  | inl (v, same) ↦ ground arith
  | inr (e, same) ↦ ground arith
]

swept_answer-version :
    {A : Type 0} (w : NoticeWorld) (s : Notices) (r : Fallible NoticeError A)
    → (swept_answer w s r).0.version ≡ s.version
unfolding swept_answer
swept_answer-version w s r =
    let swept : Notices = record s { owners = remove_expired (w.now / second) s.owners } in
    ground (arith, save_or_restore-version w s swept r)

enqueue-version :
    (w : NoticeWorld) (owner : Text) (input : NoticeInput) (s : Notices)
    → (enqueue w owner input s).0.version ≡ s.version
unfolding enqueue enqueue_trimmed
enqueue-version w owner input s =
    let told : Notice → Fallible NoticeError (Notice × Bool) = λ n. ok (n, true) in
    elim (Option-cases w.new_id) [
      | inl none_made ↦
          elim (Option-cases (
            find_key (trim_notice input).dedup_key
              (get_or (trim_space owner) [] (swept_owners w s)))) [
                | inl fresh ↦ ground (
                  arith,
                  swept_answer-version {A = Notice × Bool} w s (err notice_capacity_exceeded),
                )
                | inr (n, there) ↦ ground (arith, swept_answer-version w s (told n))
              ]
      | inr (id, made) ↦
          elim (Option-cases (
            find_key (trim_notice input).dedup_key
              (get_or (trim_space owner) [] (swept_owners w s)))) [
                | inl fresh ↦ ground (
                  arith,
                  swept_answer-version {A = Notice × Bool} w s (err notice_capacity_exceeded),
                  save_or_restore-version {A = Notice × Bool} w s
                      (enqueued w (trim_space owner) (trim_notice input) s id)
                      (ok (notice_of w (trim_notice input) id, false)),
                )
                | inr (n, there) ↦ ground (arith, swept_answer-version w s (told n))
              ]
    ]

swept-IsNoticeState :
    (w : NoticeWorld) (s s' : Notices)
    → IsNoticeState s
    → s'.version ≡ s.version
    → s'.owners ≡ swept_owners w s
    → IsNoticeState s'
swept-IsNoticeState w s s' ok_s v o = record {
  is_version = ground (arith, ok_s.is_version);
  is_scanned =
      ground
        (arith, o, scan_notice_owners-remove_expired (w.now / second) s.owners ok_s.is_scanned);
  has_distinct =
      subst (λ (m : Map (List Notice)). HasDistinctKeys m) (sym o)
        (remove_expired-HasDistinctKeys (w.now / second) s.owners ok_s.has_distinct);
}

same-IsNoticeState :
    (s s' : Notices)
    → IsNoticeState s
    → s'.version ≡ s.version
    → s'.owners ≡ s.owners
    → IsNoticeState s'
same-IsNoticeState s s' ok_s v o = record {
  is_version = ground (arith, ok_s.is_version);
  is_scanned = ground (arith, o, ok_s.is_scanned);
  has_distinct = subst (λ (m : Map (List Notice)). HasDistinctKeys m) (sym o) ok_s.has_distinct;
}

Enqueued-IsNoticeState :
    (w : NoticeWorld) (owner : Text) (input : NoticeInput) (s s' : Notices)
    (r : Fallible NoticeError (Notice × Bool))
    → IsNoticeState s
    → s'.version ≡ s.version
    → Enqueued w owner input s s' r
    → IsNoticeState s'
Enqueued-IsNoticeState w owner input s s' r ok_s v how = elim how [
  | refused e (inl o) is ↦ swept-IsNoticeState w s s' ok_s v o
  | refused e (inr o) is ↦ same-IsNoticeState s s' ok_s v o
  | known n o f is ↦ swept-IsNoticeState w s s' ok_s v o
  | added id f few valid o is ↦
      let next : Notices = enqueued w owner input s id in
      let mine : List Notice = get_or owner [] (swept_owners w s) in
      let good = (validate_notices_iff next).0 valid in
      same-IsNoticeState next s'
        (record {
          is_version = good.0;
          is_scanned = good.1;
          has_distinct =
              insert-HasDistinctKeys owner (mine ++ (notice_of w input id ∷ [])) (swept_owners w s)
                (remove_expired-HasDistinctKeys (w.now / second) s.owners ok_s.has_distinct);
        })
        v o
]

pub enqueue-IsNoticeState :
    (w : NoticeWorld) (owner : Text) (input : NoticeInput) (s : Notices)
    → IsNoticeState s
    → IsNoticeState (enqueue w owner input s).0
unfolding enqueue
enqueue-IsNoticeState w owner input s ok_s =
    let input' : NoticeInput = trim_notice input in
    let v = enqueue-version w owner input s in
    elim (Bool-cases (good_notice_input (trim_space owner) input')) [
      | inr bad ↦ rw bad ok_s
      | inl good ↦
          let v' : (enqueue_trimmed w (trim_space owner) input' s).0.version ≡ s.version =
            ground (arith, v, good) in
          rw good (
            Enqueued-IsNoticeState w (trim_space owner) input' s
              (enqueue_trimmed w (trim_space owner) input' s).0
              (enqueue_trimmed w (trim_space owner) input' s).1 ok_s v'
              (enqueue_trimmed-cases w (trim_space owner) input' s))
    ]

swept_answer-IsNoticeState :
    {A : Type 0} (w : NoticeWorld) (s : Notices) (r : Fallible NoticeError A)
    → IsNoticeState s
    → IsNoticeState (swept_answer w s r).0
swept_answer-IsNoticeState w s r ok_s =
    let s' : Notices = (swept_answer w s r).0 in
    let v = swept_answer-version w s r in
    elim (swept_answer-cases w s r) [
      | inl (o, answer) ↦ swept-IsNoticeState w s s' ok_s v o
      | inr (o, e) ↦ same-IsNoticeState s s' ok_s v o
    ]

pub list_notices-IsNoticeState :
    (w : NoticeWorld) (raw : Text) (limit : ℕ) (s : Notices)
    → IsNoticeState s
    → IsNoticeState (list_notices w raw limit s).0
unfolding list_notices
list_notices-IsNoticeState w raw limit s ok_s =
    let owner : Text = trim_space raw in
    let most : ℕ =
      if limit == 0 || ltb max_pending_notices_per_owner limit
      then max_pending_notices_per_owner
      else limit in
    elim (Bool-cases (not (valid_notice_line owner 512))) [
      | inl bad ↦ rw bad ok_s
      | inr good ↦ rw good (
          swept_answer-IsNoticeState w s
            (ok (take most (get_or owner [] (remove_expired (w.now / second) s.owners)))) ok_s)
    ]

with_kept-HasDistinctKeys :
    (owner : Text) (kept : List Notice) (owners : Map (List Notice))
    → HasDistinctKeys owners
    → HasDistinctKeys (with_kept owner kept owners)
with_kept-HasDistinctKeys owner [] owners d = delete-HasDistinctKeys owner owners d
with_kept-HasDistinctKeys owner (n ∷ kept) owners d =
    insert-HasDistinctKeys owner (n ∷ kept) owners d

pub complete_notices-IsNoticeState :
    (w : NoticeWorld) (raw : Text) (ids : List Text) (s : Notices)
    → IsNoticeState s
    → IsNoticeState (complete_notices w raw ids s).0
unfolding complete_notices
complete_notices-IsNoticeState w raw ids s ok_s =
    let owner : Text = trim_space raw in
    let kept : List Notice = kept_of raw ids s in
    let next : Notices = record s { owners = with_kept owner kept s.owners } in
    let saved : IsNoticeState (save_or_restore w s next (ok tt)).0 =
      elim (save_or_restore-cases w s next (ok tt)) [
        | inl (valid, same) ↦
            let good = (validate_notices_iff next).0 valid in
            same-IsNoticeState next (save_or_restore w s next (ok tt)).0
              (record {
                is_version = good.0;
                is_scanned = good.1;
                has_distinct = with_kept-HasDistinctKeys owner kept s.owners ok_s.has_distinct;
              })
              (ground (arith, same)) (ground (arith, same))
        | inr (e, same) ↦
            same-IsNoticeState s (save_or_restore w s next (ok tt)).0 ok_s (ground (arith, same))
              (ground (arith, same))
      ] in
    elim (Bool-cases (not (valid_notice_line owner 512) || length ids == 0)) [
      | inl bad ↦ rw bad ok_s
      | inr line ↦ elim (Bool-cases (not (all valid_notice_id (map trim_space ids)))) [
        | inl bad ↦ rw line (rw bad ok_s)
        | inr good ↦ elim (Bool-cases (length kept == length (get_or owner [] s.owners))) [
          | inl whole ↦ rw line (rw good (rw whole ok_s))
          | inr some_gone ↦ rw line (rw good (rw some_gone saved))
        ]
      ]
    ]

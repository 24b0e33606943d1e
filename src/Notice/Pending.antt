-- ===== src/Notice/Pending.antt =====
-- core/delivery/pending_notice.go: what the operations do to the notices that are pending.
use codex_link_clawbot.Prelude.{
  leb, if◌then◌else◌, Bool-cases, Option-cases, Fallible-cases, Fallible, ok, err, length, filter,
  ℕ, ◌/◌, ◌≤◌, ◌<◌, ◌≡◌, refl, ◌⊎◌, inl, inr, Bool, true, false, none, some, List, [], ◌∷◌, ◌++◌,
  arith,
}
use codex_link_clawbot.Text.{Text, text_eq, text_eq_iff, trim_space}
use codex_link_clawbot.Map.{Map, lookup, insert, get_or, lookup-insert, HasDistinctKeys}
use codex_link_clawbot.Notice.{
  max_pending_notices_per_owner, second, trim_notice, good_notice_input, validate_notices,
  write_notices, save_notices, is_live, remove_expired, has_expired, save_or_restore, swept_answer,
  find_key, notice_of, enqueue_trimmed, enqueue, Notice, NoticeInput, NoticeError,
  notice_capacity_exceeded, no_notice_id, notices_not_saved, Notices, NoticeWorld,
}

-- The notices of an owner that have not expired at a time, in Unix seconds.
abbrev pub pending_at : Text → ℕ → Notices → List Notice
pending_at j t s = filter (is_live t) (get_or j [] s.owners)

pub filter-live_later :
    (now t : ℕ) (ns : List Notice)
    → now ≤ t
    → filter (is_live t) (filter (is_live now) ns) ≡ filter (is_live t) ns
filter-live_later now t [] later = refl
filter-live_later now t (n ∷ ns) later = ground (arith, filter-live_later now t ns)

pub append_nil : (xs : List Notice) → xs ++ [] ≡ xs
append_nil [] = refl
append_nil (x ∷ xs) = ground (arith, append_nil xs)

filter-append :
    (p : Notice → Bool) (xs ys : List Notice) → filter p (xs ++ ys) ≡ filter p xs ++ filter p ys
filter-append p [] ys = refl
filter-append p (x ∷ xs) ys = ground (arith, filter-append p xs ys)

pub filter-swap :
    (p q : Notice → Bool) (xs : List Notice) → filter p (filter q xs) ≡ filter q (filter p xs)
filter-swap p q [] = refl
filter-swap p q (x ∷ xs) = ground (arith, filter-swap p q xs)

pub remove_expired-absent :
    (j : Text) (now : ℕ) (owners : Map (List Notice))
    → lookup j owners ≡ none
    → lookup j (remove_expired now owners) ≡ none
unfolding remove_expired lookup
remove_expired-absent j now [] h = refl
remove_expired-absent j now ((k, ns) ∷ owners) h =
    ground (arith, remove_expired-absent j now owners)

pub remove_expired-HasDistinctKeys :
    (now : ℕ) (owners : Map (List Notice))
    → HasDistinctKeys owners
    → HasDistinctKeys (remove_expired now owners)
unfolding remove_expired
remove_expired-HasDistinctKeys now [] d = tt
remove_expired-HasDistinctKeys now ((k, ns) ∷ owners) d =
    ground (arith, remove_expired-absent k now owners, remove_expired-HasDistinctKeys now owners)

-- The sweep leaves of each owner's notices those that have not expired.
pub remove_expired-get :
    (j : Text) (now : ℕ) (owners : Map (List Notice))
    → HasDistinctKeys owners
    → get_or j [] (remove_expired now owners) ≡ filter (is_live now) (get_or j [] owners)
unfolding remove_expired lookup
remove_expired-get j now [] d = refl
remove_expired-get j now ((k, ns) ∷ owners) d =
    ground
      (arith, text_eq_iff k j, remove_expired-absent j now owners, remove_expired-get j now owners)

-- A save that keeps the next state, or an error that keeps the owners.
pub save_or_restore-cases :
    {A : Type 0} (w : NoticeWorld) (s next : Notices) (r : Fallible NoticeError A)
    → ((validate_notices next ≡ ok tt)
        × (save_or_restore w s next r ≡ (record next { rows = write_notices next.owners [] }, r)))
      ⊎ ((e : NoticeError) × (save_or_restore w s next r
            ≡ (record next { owners = s.owners }, err e)))
unfolding save_or_restore save_notices
save_or_restore-cases w s next r = elim (Fallible-cases (validate_notices next)) [
  | inr (e, bad) ↦ inr (e, ground arith)
  | inl (u, good) ↦ elim (Bool-cases w.commits) [
    | inl c ↦ inl (ground arith, ground arith)
    | inr c ↦ inr (notices_not_saved, ground arith)
  ]
]

-- The owners after a sweep with an answer: the swept ones, or the old ones with an error.
pub swept_answer-cases :
    {A : Type 0} (w : NoticeWorld) (s : Notices) (r : Fallible NoticeError A)
    → (((swept_answer w s r).0.owners ≡ remove_expired (w.now / second) s.owners)
        × ((swept_answer w s r).1 ≡ r))
      ⊎ (((swept_answer w s r).0.owners ≡ s.owners)
          × ((e : NoticeError) × ((swept_answer w s r).1 ≡ err e)))
unfolding swept_answer
swept_answer-cases w s r =
    let swept : Notices = record s { owners = remove_expired (w.now / second) s.owners } in
    elim (Bool-cases (has_expired (w.now / second) s.owners)) [
      | inr n ↦ inl (ground arith, ground arith)
      | inl y ↦ elim (save_or_restore-cases w s swept r) [
        | inl (v, same) ↦ inl (ground arith, ground arith)
        | inr (e, same) ↦ inr (ground arith, (e, ground arith))
      ]
    ]

pub swept_answer-pending :
    {A : Type 0} (w : NoticeWorld) (s : Notices) (r : Fallible NoticeError A) (j : Text) (t : ℕ)
    → HasDistinctKeys s.owners
    → w.now / second ≤ t
    → pending_at j t (swept_answer w s r).0 ≡ pending_at j t s
swept_answer-pending w s r j t d later = elim (swept_answer-cases w s r) [
  | inl (same, answer) ↦ ground (
    arith,
    remove_expired-get j (w.now / second) s.owners d,
    filter-live_later (w.now / second) t (get_or j [] s.owners) later,
  )
  | inr (same, e) ↦ ground arith
]

-- What an answer adds to the list of the owner that it was for.
abbrev pub joined : Text → Text → Fallible NoticeError (Notice × Bool) → List Notice
joined owner j (ok (n, false)) = if text_eq owner j then n ∷ [] else []
joined owner j (ok (n, true)) = []
joined owner j (err e) = []

abbrev pub swept_owners : NoticeWorld → Notices → Map (List Notice)
swept_owners w s = remove_expired (w.now / second) s.owners

-- The state that an enqueue saves.
abbrev pub enqueued : NoticeWorld → Text → NoticeInput → Notices → Text → Notices
enqueued w owner input s id = record s {
  owners =
      insert owner (get_or owner [] (swept_owners w s) ++ (notice_of w input id ∷ []))
        (swept_owners w s);
}

-- How an enqueue under the lock can end.
pub data Enqueued (w : NoticeWorld) (owner : Text) (input : NoticeInput) (s s' : Notices)
    (r : Fallible NoticeError (Notice × Bool)) : Type 0 where
  refused :
      (e : NoticeError)
      → (s'.owners ≡ swept_owners w s) ⊎ (s'.owners ≡ s.owners)
      → r ≡ err e
      → Enqueued w owner input s s' r
  known :
      (n : Notice)
      → s'.owners ≡ swept_owners w s
      → find_key input.dedup_key (get_or owner [] (swept_owners w s)) ≡ some n
      → r ≡ ok (n, true)
      → Enqueued w owner input s s' r
  added :
      (id : Text)
      → find_key input.dedup_key (get_or owner [] (swept_owners w s)) ≡ none
      → length (get_or owner [] (swept_owners w s)) < 32
      → validate_notices (enqueued w owner input s id) ≡ ok tt
      → s'.owners ≡ (enqueued w owner input s id).owners
      → r ≡ ok (notice_of w input id, false)
      → Enqueued w owner input s s' r

pub enqueue_trimmed-cases :
    (w : NoticeWorld) (owner : Text) (input : NoticeInput) (s : Notices)
    → Enqueued w owner input s
        (enqueue_trimmed w owner input s).0
        (enqueue_trimmed w owner input s).1
unfolding enqueue_trimmed
enqueue_trimmed-cases w owner input s =
    let mine : List Notice = get_or owner [] (swept_owners w s) in
    elim (Option-cases (find_key input.dedup_key mine)) [
      | inr (n, there) ↦ elim (swept_answer-cases {A = Notice × Bool} w s (ok (n, true))) [
        | inl (same, answer) ↦ Enqueued.known n (ground arith) there (ground arith)
        | inr (same, (e, answer)) ↦ Enqueued.refused e (inr (ground arith)) (ground arith)
      ]
      | inl fresh ↦ elim (Bool-cases (leb max_pending_notices_per_owner (length mine))) [
        | inl full ↦
            elim (swept_answer-cases {A = Notice × Bool} w s (err notice_capacity_exceeded)) [
              | inl (same, answer) ↦
                  Enqueued.refused notice_capacity_exceeded (inl (ground arith)) (ground arith)
              | inr (same, (e, answer)) ↦ Enqueued.refused e (inr (ground arith)) (ground arith)
            ]
        | inr room ↦ elim (Option-cases w.new_id) [
          | inl failed_id ↦ Enqueued.refused no_notice_id (inl (ground arith)) (ground arith)
          | inr (id, made) ↦
              elim (save_or_restore-cases {A = Notice × Bool} w s (enqueued w owner input s id)
                (ok (notice_of w input id, false))) [
                  | inl (good, same) ↦
                      Enqueued.added id fresh (ground arith) good (ground arith) (ground arith)
                  | inr (e, same) ↦ Enqueued.refused e (inr (ground arith)) (ground arith)
                ]
        ]
      ]
    ]

pending_at-added :
    (w : NoticeWorld) (owner : Text) (input : NoticeInput) (s : Notices) (id j : Text) (t : ℕ)
    → HasDistinctKeys s.owners
    → w.now / second ≤ t
    → pending_at j t (enqueued w owner input s id)
      ≡ pending_at j t s ++ filter (is_live t) (joined owner j (ok (notice_of w input id, false)))
pending_at-added w owner input s id j t d later =
    let mine : List Notice = get_or owner [] (swept_owners w s) in
    let n : Notice = notice_of w input id in
    let lookups = lookup-insert owner j (mine ++ (n ∷ [])) (swept_owners w s) in
    let swept = remove_expired-get j (w.now / second) s.owners d in
    let same = filter-live_later (w.now / second) t (get_or j [] s.owners) later in
    elim (Bool-cases (text_eq owner j)) [
      | inl here ↦
          let is : owner ≡ j = (text_eq_iff owner j).0 here in
          ground (arith, here, is, lookups, filter-append (is_live t) mine (n ∷ []), swept, same)
      | inr there ↦ ground (arith, there, lookups, append_nil (pending_at j t s), swept, same)
    ]

-- An enqueue adds its notice at the end of the owner's pending ones when it answers that the notice
-- is new; in every other case, errors included, nothing that is pending at the time of the call or
-- later changes, and no other owner's notices ever do.
pub enqueue-pending :
    (w : NoticeWorld) (owner : Text) (input : NoticeInput) (s : Notices) (j : Text) (t : ℕ)
    → HasDistinctKeys s.owners
    → w.now / second ≤ t
    → pending_at j t (enqueue w owner input s).0
      ≡ pending_at j t s
        ++ filter (is_live t) (joined (trim_space owner) j (enqueue w owner input s).1)
unfolding enqueue
enqueue-pending w owner input s j t d later =
    let swept = remove_expired-get j (w.now / second) s.owners d in
    let same = filter-live_later (w.now / second) t (get_or j [] s.owners) later in
    let whole = append_nil (pending_at j t s) in
    elim (Bool-cases (good_notice_input (trim_space owner) (trim_notice input))) [
      | inr bad ↦ ground (arith, bad, whole)
      | inl good ↦ elim (enqueue_trimmed-cases w (trim_space owner) (trim_notice input) s) [
        | refused e (inl o) is ↦ ground (arith, swept, same, good, whole)
        | refused e (inr o) is ↦ ground (arith, good, whole)
        | known n o f is ↦ ground (arith, swept, same, good, whole)
        | added id f few valid o is ↦ ground (
          arith,
          good,
          pending_at-added w (trim_space owner) (trim_notice input) s id j t d later,
        )
      ]
    ]

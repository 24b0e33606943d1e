-- ===== src/Notice/Completed.antt =====
-- core/delivery/pending_notice.go: Complete and List, and what they leave pending.
use codex_link_clawbot.Prelude.{
  ltb, ◌==◌, if◌then◌else◌, Bool-cases, ok, length, take, filter, filter-eq_of_length, ℕ, ◌/◌, ◌≤◌,
  ◌<◌, ◌≡◌, ◌⊎◌, inl, inr, Bool, false, ◌||◌, not, List, [], ◌∷◌, map, arith,
}
use codex_link_clawbot.Text.{Text, text_eq, text_eq_iff, trim_space}
use codex_link_clawbot.Map.{Map, get_or, lookup-insert, lookup-delete, HasDistinctKeys}
use codex_link_clawbot.Notice.{
  max_pending_notices_per_owner, second, member_of, is_live, list_notices, with_kept,
  complete_notices, Notice, Notices, NoticeWorld,
}
use codex_link_clawbot.Notice.Pending.{
  pending_at, filter-swap, remove_expired-get, save_or_restore-cases, swept_answer-cases,
  swept_answer-pending, swept_owners,
}

abbrev pub not_selected : List Text → Notice → Bool
not_selected ids n = not (member_of n.id (map trim_space ids))

get-with_kept :
    (owner j : Text) (kept : List Notice) (owners : Map (List Notice))
    → get_or j [] (with_kept owner kept owners)
      ≡ (if text_eq owner j then kept else get_or j [] owners)
get-with_kept owner j [] owners = ground (arith, lookup-delete owner j owners)
get-with_kept owner j (n ∷ kept) owners = ground (arith, lookup-insert owner j (n ∷ kept) owners)

abbrev pub kept_of : Text → List Text → Notices → List Notice
kept_of raw ids s = filter (not_selected ids) (get_or (trim_space raw) [] s.owners)

-- How a completion that ends well ends: with nothing to do, or with the rest of the owner's
-- notices.
complete_notices-cases :
    (w : NoticeWorld) (raw : Text) (ids : List Text) (s : Notices) {s' : Notices}
    → complete_notices w raw ids s ≡ (s', ok tt)
    → ((length (kept_of raw ids s) ≡ length (get_or (trim_space raw) [] s.owners)) × (s' ≡ s))
      ⊎ (s'.owners ≡ with_kept (trim_space raw) (kept_of raw ids s) s.owners)
unfolding complete_notices
complete_notices-cases w raw ids s {s'} h =
    let owner = trim_space raw in
    let kept : List Notice = kept_of raw ids s in
    let next : Notices = record s { owners = with_kept owner kept s.owners } in
    elim (Bool-cases (length kept == length (get_or owner [] s.owners))) [
      | inl none_left ↦ inl (ground arith, ground arith)
      | inr some_gone ↦ elim (save_or_restore-cases w s next (ok tt)) [
        | inl (good, same) ↦ inr (ground arith)
        | inr (e, same) ↦ absurd (ground arith)
      ]
    ]

-- A completion that ends well takes exactly the named notices from the owner's pending ones, at any
-- time, and leaves the others in their order; no other owner's notices change.
pub complete_notices-pending :
    (w : NoticeWorld) (raw : Text) (ids : List Text) (s : Notices) (j : Text) (t : ℕ) {s' : Notices}
    → complete_notices w raw ids s ≡ (s', ok tt)
    → pending_at j t s' ≡ (
        if text_eq (trim_space raw) j
        then filter (not_selected ids) (pending_at j t s)
        else pending_at j t s)
complete_notices-pending w raw ids s j t {s'} h =
    let owner : Text = trim_space raw in
    let mine : List Notice = get_or owner [] s.owners in
    let swap = filter-swap (is_live t) (not_selected ids) (get_or j [] s.owners) in
    elim (complete_notices-cases w raw ids s h) [
      | inl (all_kept, same) ↦
          let whole : kept_of raw ids s ≡ mine =
            filter-eq_of_length (not_selected ids) mine all_kept in
          ground (arith, same, whole, text_eq_iff owner j, swap)
      | inr moved ↦ ground (
        arith,
        moved,
        text_eq_iff owner j,
        get-with_kept owner j (kept_of raw ids s) s.owners,
        swap,
      )
    ]

-- A list that ends well, asked for 1 to 32 notices, answers that many of the owner's pending
-- notices, the first ones, and it does not change what is pending at its time or later.
pub list_notices-pending :
    (w : NoticeWorld) (raw : Text) (limit : ℕ) (s : Notices) (j : Text) (t : ℕ) {s' : Notices}
    {ns : List Notice}
    → HasDistinctKeys s.owners
    → w.now / second ≤ t
    → 0 < limit
    → limit ≤ max_pending_notices_per_owner
    → list_notices w raw limit s ≡ (s', ok ns)
    → (ns ≡ take limit (pending_at (trim_space raw) (w.now / second) s))
      × (pending_at j t s' ≡ pending_at j t s)
unfolding list_notices
list_notices-pending w raw limit s j t {s'} {ns} d later some_limit small h =
    let owner : Text = trim_space raw in
    let first : List Notice = take limit (get_or owner [] (swept_owners w s)) in
    let as_asked : (limit == 0 || ltb max_pending_notices_per_owner limit) ≡ false = ground arith in
    let swept = remove_expired-get owner (w.now / second) s.owners d in
    let same = swept_answer-pending w s (ok first) j t d later in
    elim (swept_answer-cases w s (ok first)) [
      | inl (o, answer) ↦ (ground (arith, as_asked, answer, swept), ground (arith, as_asked, same))
      | inr (o, (e, answer)) ↦ absurd (ground (arith, as_asked, answer))
    ]

-- ===== src/Thread/Scanned.antt =====
-- core/thread/global_catalog.go: what a scan of the catalogue collects.
use codex_link_clawbot.Prelude.{
  Bool-cases, Option-cases, Fallible-cases, ok, all, any, any-append, ℕ, zero, suc, ◌+◌, ◌≡◌, refl,
  sym, subst, inl, inr, Bool, true, false, ◌&&◌, ◌||◌, not, some, List, [], ◌∷◌, ◌++◌, arith,
}
use codex_link_clawbot.Text.{Text, text_eq, text_eq_iff, text_eq_sym, is_empty, trim_space}
use codex_link_clawbot.Thread.{
  scan_rounds, add_thread, add_threads, scan_from, scan_global_threads, thread_by_id,
  read_available_thread, ThreadInfo, ThreadClient,
}

-- No thread has the id of a later one.
abbrev pub has_id_of : ThreadInfo → List ThreadInfo → Bool
has_id_of t = any (λ u. text_eq u.id t.id)

abbrev pub has_distinct_ids : List ThreadInfo → Bool
has_distinct_ids [] = true
has_distinct_ids (t ∷ rest) = not (has_id_of t rest) && has_distinct_ids rest

abbrev pub has_named_ids : List ThreadInfo → Bool
has_named_ids = all (λ t. not (is_empty (trim_space t.id)))

has_id_of-append :
    (t u : ThreadInfo) (ts : List ThreadInfo)
    → has_id_of t (ts ++ (u ∷ [])) ≡ (has_id_of t ts || text_eq u.id t.id)
has_id_of-append t u ts = ground (arith, any-append (λ x. text_eq x.id t.id) ts (u ∷ []))

has_distinct_ids-append :
    (t : ThreadInfo) (ts : List ThreadInfo)
    → has_distinct_ids ts ≡ true
    → has_id_of t ts ≡ false
    → has_distinct_ids (ts ++ (t ∷ [])) ≡ true
has_distinct_ids-append t [] d n = refl
has_distinct_ids-append t (u ∷ ts) d n =
    ground (arith, has_id_of-append u t ts, text_eq_sym t.id u.id, has_distinct_ids-append t ts)

has_named_ids-append :
    (t : ThreadInfo) (ts : List ThreadInfo)
    → has_named_ids ts ≡ true
    → is_empty (trim_space t.id) ≡ false
    → has_named_ids (ts ++ (t ∷ [])) ≡ true
has_named_ids-append t [] h n = ground (arith, n)
has_named_ids-append t (u ∷ ts) h n = ground (arith, has_named_ids-append t ts)

-- The ids that the loop has seen are those of the threads that it has kept.
pub record IsScan (at : List Text × List ThreadInfo) : Type 0 where
  pub distinct : has_distinct_ids at.1 ≡ true
  pub named : has_named_ids at.1 ≡ true
  pub same_ids : (t : ThreadInfo) → any (λ k. text_eq k t.id) at.0 ≡ has_id_of t at.1

add_thread-IsScan :
    (t : ThreadInfo) (at : List Text × List ThreadInfo) → IsScan at → IsScan (add_thread t at)
unfolding add_thread
add_thread-IsScan t at h =
    elim (Bool-cases (is_empty (trim_space t.id) || any (λ k. text_eq k t.id) at.0)) [
      | inl skip ↦
          let same : add_thread t at ≡ at = ground (arith, skip) in
          subst (λ (x : List Text × List ThreadInfo). IsScan x) (sym same) h
      | inr keep ↦
          let no_other : has_id_of t at.1 ≡ false = ground (arith, keep, h.same_ids t) in
          let same : add_thread t at ≡ (t.id ∷ at.0, at.1 ++ (t ∷ [])) = ground (arith, keep) in
          subst (λ (x : List Text × List ThreadInfo). IsScan x) (sym same)
            (record {
              distinct = has_distinct_ids-append t at.1 h.distinct no_other;
              named = has_named_ids-append t at.1 h.named (ground (arith, keep));
              same_ids = λ u. ground (arith, h.same_ids u, has_id_of-append u t at.1);
            })
    ]

add_threads-IsScan :
    (page : List ThreadInfo) (at : List Text × List ThreadInfo)
    → IsScan at
    → IsScan (add_threads page at)
unfolding add_threads
add_threads-IsScan [] at h = h
add_threads-IsScan (t ∷ page) at h =
    add_threads-IsScan page (add_thread t at) (add_thread-IsScan t at h)

scan_from-distinct :
    (client : ThreadClient) (archived : Bool) (query : Text) (left round : ℕ) (cursor : Text)
    (cursors : List Text) (so_far : List Text × List ThreadInfo) {ts : List ThreadInfo}
    → IsScan so_far
    → scan_from client archived query left round cursor cursors so_far ≡ ok ts
    → (has_distinct_ids ts ≡ true) × (has_named_ids ts ≡ true)
unfolding scan_from
scan_from-distinct client archived query zero round cursor cursors so_far h done =
    absurd (ground arith)
scan_from-distinct client archived query (suc left) round cursor cursors so_far {ts} h done =
    elim (Option-cases (client.list_threads round archived query cursor)) [
      | inl n ↦ absurd (ground (arith, n))
      | inr (page, is) ↦
          let next : List Text × List ThreadInfo = add_threads page.threads so_far in
          let kept : IsScan next = add_threads-IsScan page.threads so_far h in
          elim (Bool-cases (is_empty page.next_cursor)) [
            | inl last ↦
                let same : next.1 ≡ ts = ground (arith, is, last) in
                (
                  subst (λ (x : List ThreadInfo). has_distinct_ids x ≡ true) same kept.distinct,
                  subst (λ (x : List ThreadInfo). has_named_ids x ≡ true) same kept.named,
                )
            | inr more ↦ elim (Bool-cases (any (λ k. text_eq k page.next_cursor) cursors)) [
              | inl again ↦ absurd (ground (arith, is, more, again))
              | inr fresh ↦
                  scan_from-distinct client archived query left (round + 1) page.next_cursor
                    (page.next_cursor ∷ cursors) next kept (ground (arith, is, more, fresh))
            ]
          ]
    ]

-- Whatever Codex answers, round for round, a catalogue that a scan returns has no thread twice and
-- none without an id.
pub scan_global_threads-distinct :
    (client : ThreadClient) (archived : Bool) (query : Text) {ts : List ThreadInfo}
    → scan_global_threads client archived query ≡ ok ts
    → (has_distinct_ids ts ≡ true) × (has_named_ids ts ≡ true)
unfolding scan_global_threads
scan_global_threads-distinct client archived query h =
    scan_from-distinct client archived query scan_rounds 0 [] [] ([], [])
      (record { distinct = refl; named = refl; same_ids = λ t. refl }) h

thread_by_id-id :
    (id : Text) (ts : List ThreadInfo) {t : ThreadInfo} → thread_by_id id ts ≡ some t → t.id ≡ id
unfolding thread_by_id
thread_by_id-id id [] h = absurd (ground arith)
thread_by_id-id id (u ∷ ts) {t} h =
    ground (arith, text_eq_iff u.id id, thread_by_id-id id ts {t = t})

pub read_available_thread-id :
    (client : ThreadClient) (id : Text) {t : ThreadInfo}
    → read_available_thread client id ≡ ok t
    → t.id ≡ id
unfolding read_available_thread
read_available_thread-id client id {t} h =
    elim (Fallible-cases (scan_global_threads client false [])) [
      | inr (e, bad) ↦ absurd (ground (arith, bad))
      | inl (ts, good) ↦ elim (Option-cases (thread_by_id id ts)) [
        | inl n ↦ absurd (ground (arith, good, n))
        | inr (u, found) ↦ ground (arith, good, found, thread_by_id-id id ts found)
      ]
    ]

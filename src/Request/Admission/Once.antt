-- ===== src/Request/Admission/Once.antt =====
-- core/request/store.go: a source that is started again, the sweep of Start included.
use codex_link_clawbot.Prelude.{
  ◌==◌, Bool-cases, Option-cases, Fallible-cases, ok, length, ℕ, suc, ◌≡◌, refl, sym, ap, ◌∙◌,
  subst, inl, inr, Bool, true, none, some, List, [], ◌∷◌, arith,
}
use codex_link_clawbot.Text.{Text, text_eq, text_eq_refl, trim_space}
use codex_link_clawbot.Map.{Map, lookup, insert, HasDistinctKeys}
use codex_link_clawbot.Request.Types.{Task, Index, StartInput}
use codex_link_clawbot.Request.Valid.{validate_start_input}
use codex_link_clawbot.Request.Index.{
  find_source, find_source_in, find_by_source_locked, find_by_source,
}
use codex_link_clawbot.Request.Storage.{no_extra, save_locked, update_tables, Store, World}
use codex_link_clawbot.Request.Retention.{
  expire_rows, sweep_receipts, kept_tasks, sweep_owners, cleanup,
}
use codex_link_clawbot.Request.Retention.Sweep.{
  is_within, in_history, kept_tasks-filter, still_there, update_tables-index, sweep_receipts-owners,
}
use codex_link_clawbot.Request.Lifecycle.{with_tasks}
use codex_link_clawbot.Request.Lifecycle.Commit.{save_locked-index}
use codex_link_clawbot.Request.Admission.{trim_input, start_swept, start, Staging}
use codex_link_clawbot.Request.Admission.Source.{start_swept-finds}

find_source-within :
    (source : Text) (now : ℕ) (ts : List Task) {t : Task}
    → find_source source ts ≡ some t
    → is_within t.state t.finished_at now ≡ true
    → find_source source (in_history now ts) ≡ some t
unfolding in_history
find_source-within source now [] h kept = absurd (ground arith)
find_source-within source now (x ∷ ts) {t} h kept =
    elim (Bool-cases (text_eq x.source_message_key source)) [
      | inl here ↦ let same : x ≡ t = ground (arith, here) in ground (arith, here, same, kept)
      | inr later ↦ ground (arith, later, find_source-within source now ts {t = t})
    ]

find_source-absent :
    (source : Text) (now : ℕ) (ts : List Task)
    → find_source source ts ≡ none
    → find_source source (in_history now ts) ≡ none
unfolding in_history
find_source-absent source now [] h = refl
find_source-absent source now (x ∷ ts) h = ground (arith, find_source-absent source now ts)

-- A task that stands in the history is found when an owner's tasks are swept.
find_source_in-within :
    (source owner : Text) (now : ℕ) (ts : List Task) (m : Map (List Task)) {t : Task}
    → lookup owner m ≡ some ts
    → find_source_in source m ≡ some t
    → is_within t.state t.finished_at now ≡ true
    → find_source_in source (insert owner (in_history now ts) m) ≡ some t
unfolding find_source_in insert lookup
find_source_in-within source owner now ts [] there h kept = absurd (ground arith)
find_source_in-within source owner now ts ((o, xs) ∷ m) {t} there h kept =
    elim (Bool-cases (text_eq o owner)) [
      | inl here ↦
          let same : xs ≡ ts = ground (arith, here) in
          elim (Option-cases (find_source source ts)) [
            | inl n ↦ ground (arith, here, same, n, find_source-absent source now ts)
            | inr (x, e) ↦ ground (arith, here, same, e, find_source-within source now ts e)
          ]
      | inr later ↦ ground (arith, later, find_source_in-within source owner now ts m {t = t})
    ]

sweep_owners-finds :
    (w : World) (k : ℕ) (todo : Map (List Task)) (s : Store) (source : Text) {s' : Store} {t : Task}
    → HasDistinctKeys todo
    → ((j : Text) (ts : List Task) → lookup j todo ≡ some ts → lookup j s.index.owners ≡ some ts)
    → find_source_in source s.index.owners ≡ some t
    → is_within t.state t.finished_at w.now ≡ true
    → sweep_owners w k todo s ≡ (s', ok tt)
    → find_source_in source s'.index.owners ≡ some t
unfolding sweep_owners lookup
sweep_owners-finds w k [] s source d there found kept_ h = ground arith
sweep_owners-finds w k ((owner, ts) ∷ rest) s source {s'} {t} d there found within h =
    elim (Fallible-cases (kept_tasks w ts)) [
      | inr (e, bad) ↦ absurd (ground arith)
      | inl (kept, eq) ↦
          let same : kept ≡ in_history w.now ts = kept_tasks-filter w ts eq in
          let here : lookup owner s.index.owners ≡ some ts =
            there owner ts (ground (arith, text_eq_refl owner)) in
          let rest_there = still_there owner ts rest s d.0 there kept in
          elim (Bool-cases (length kept == length ts)) [
            | inl all_kept ↦
                sweep_owners-finds w (suc k) rest s source {s' = s'} {t = t} d.1
                  (λ j xs e. (rest_there j xs e).0) found within (ground (arith, eq, all_kept))
            | inr fewer ↦
                elim (Fallible-cases (save_locked (w.sweep k) no_extra (with_tasks owner kept s))) [
                  | inr (e, bad) ↦ absurd (ground arith)
                  | inl (saved, save) ↦
                      let index : saved.index ≡ (with_tasks owner kept s).index =
                        save_locked-index (w.sweep k) no_extra (with_tasks owner kept s) save in
                      let owners : saved.index.owners ≡ insert owner kept s.index.owners =
                        ap (λ (i : Index). i.owners) index in
                      let still : find_source_in source saved.index.owners ≡ some t = ground (
                        arith,
                        owners,
                        same,
                        find_source_in-within source owner w.now ts s.index.owners here found
                            within,
                      ) in
                      sweep_owners-finds w (suc k) rest saved source {s' = s'} {t = t} d.1
                        (λ j xs e.
                          ap (λ (i : Index). lookup j i.owners) index ∙ (rest_there j xs e).1)
                        still within (ground (arith, eq, fewer, save))
                ]
          ]
    ]

-- A sweep keeps the source of a task that stands in the history.
cleanup-finds :
    (w : World) (s : Store) (source : Text) {s' : Store} {t : Task}
    → HasDistinctKeys s.index.owners
    → find_by_source_locked s.index source ≡ some t
    → is_within t.state t.finished_at w.now ≡ true
    → cleanup w s ≡ (s', ok tt)
    → find_by_source_locked s'.index source ≡ some t
unfolding cleanup find_by_source_locked
cleanup-finds w s source {s'} {t} d found within h =
    elim (Fallible-cases (update_tables (w.sweep 0) (expire_rows w.now) s)) [
      | inr (e, bad) ↦ absurd (ground arith)
      | inl (expired, e) ↦
          let swept : Store = (sweep_receipts w expired).0 in
          let same : swept.index.owners ≡ s.index.owners =
            sweep_receipts-owners w expired
            ∙ ap (λ (i : Index). i.owners)
                (update_tables-index (w.sweep 0) (expire_rows w.now) s e) in
          let done : sweep_owners w 2 swept.index.owners swept ≡ (s', ok tt) = ground arith in
          sweep_owners-finds w 2 swept.index.owners swept source {s' = s'} {t = t}
            (subst HasDistinctKeys (sym same) d) (λ j xs x. x)
            (ap (find_source_in source) same ∙ found) within done
    ]

-- A start that ends well has swept well, and the rest of it ran on the swept store.
start-swept :
    (w : World) (st : Staging) (raw : StartInput) (s : Store) {s' : Store} {r : Task × Bool}
    → start w st raw s ≡ (s', ok r)
    → start_swept w st (trim_input raw) (cleanup w s).0 ≡ (s', ok r)
unfolding start
start-swept w st raw s {s'} {r} h =
    elim (Fallible-cases (validate_start_input w.lib (trim_input raw))) [
      | inr (e, bad) ↦ absurd (ground (arith, bad))
      | inl (u, valid) ↦ elim (Fallible-cases (cleanup w s).1) [
        | inr (e, bad) ↦ absurd (ground (arith, valid, bad))
        | inl (v, done) ↦ ground (arith, valid, done)
      ]
    ]

-- A source is run once while its task stands in the history. When Start has returned a task, the
-- source is found on it. On any store of any later time where the source is found on a task, as
-- that task then is, and the task stands in the history, a Start of the source, its sweep included,
-- returns that task, marked as already there, and adds nothing to what the sweep leaves. A task
-- stands in the history unless it has succeeded, failed, been interrupted or been cancelled and its
-- end is 30 days ago or more. The second input is one that Start accepts, its sweep ends well, and
-- no owner has two lists in the later store.
pub start-once :
    (w later : World) (st st' : Staging) (raw again : StartInput) (s s' between : Store)
    {swept : Store} {t held : Task} {b : Bool}
    → start w st raw s ≡ (s', ok (t, b))
    → trim_space again.source_message_key ≡ trim_space raw.source_message_key
    → validate_start_input later.lib (trim_input again) ≡ ok tt
    → HasDistinctKeys between.index.owners
    → find_by_source between.index raw.source_message_key ≡ some held
    → is_within held.state held.finished_at later.now ≡ true
    → cleanup later between ≡ (swept, ok tt)
    → (find_by_source s'.index raw.source_message_key ≡ some t)
      × (start later st' again between ≡ (swept, ok (held, true)))
unfolding start start_swept trim_input find_by_source
start-once w later st st' raw again s s' between {swept} {t} {held} {b} h same valid d found within
      done =
    let started = start-swept w st raw s h in
    let kept =
      cleanup-finds later between (trim_space raw.source_message_key) {s' = swept} {t = held} d
        found within done in
    (
      start_swept-finds w st (trim_input raw) (cleanup w s).0 started,
      ground (arith, valid, done, same, kept),
    )

-- ===== src/Request/Retention/Sweep.antt =====
-- core/request/lifecycle.go: the tasks that the sweep keeps of each owner.
use codex_link_clawbot.Prelude.{
  ltb, leb, ◌==◌, Bool-cases, Fallible-cases, ok, length, filter, filter-eq_of_length, ℕ, suc, ◌+◌,
  ◌*◌, ◌≡◌, refl, sym, ap, ◌∙◌, subst, inl, inr, Bool, true, false, ◌&&◌, not, Option, none, some,
  List, [], ◌∷◌, arith,
}
use codex_link_clawbot.Text.{Text, text_eq, text_eq_iff}
use codex_link_clawbot.Map.{Map, lookup, insert, lookup-insert, HasDistinctKeys}
use codex_link_clawbot.Request.Types.{
  terminal, history_retention, State, running, delivering, succeeded, failed, interrupted,
  cancelled, other, Task, Rejection, ClearedReceipt, Index,
}
use codex_link_clawbot.Request.Index.{tasks_of}
use codex_link_clawbot.Request.Storage.{Extra, no_extra, save_locked, update_tables, Store, World}
use codex_link_clawbot.Request.Retention.{
  expire_rows, fresh, with_receipts, sweep_receipts, is_history_over, kept_tasks, sweep_owners,
  cleanup,
}
use codex_link_clawbot.Request.Lifecycle.{with_tasks}
use codex_link_clawbot.Request.Lifecycle.Commit.{save_locked-index}

-- Whether a task in a state and with an end, in seconds, stands in the history at a time: it has
-- not ended, or not yet 30 days ago.
unfoldable pub is_within : State → ℕ → ℕ → Bool
is_within running finished now = true
is_within delivering finished now = true
is_within (other raw) finished now = true
is_within _ finished now = ltb now (finished + 30 * 24 * 60 * 60)

-- The tasks that the sweep is to keep.
unfoldable pub in_history : ℕ → List Task → List Task
unfolding is_within
in_history now ts = filter (λ t. is_within t.state t.finished_at now) ts

is_within-history :
    (s : State) (finished now : ℕ)
    → (terminal s && leb (finished + history_retention) now) ≡ not (is_within s finished now)
unfolding is_within terminal
is_within-history running finished now = refl
is_within-history delivering finished now = refl
is_within-history succeeded finished now = ground arith
is_within-history failed finished now = ground arith
is_within-history interrupted finished now = ground arith
is_within-history cancelled finished now = ground arith
is_within-history (other raw) finished now = refl

pub is_history_over-within :
    (now : ℕ) (t : Task) → is_history_over now t ≡ not (is_within t.state t.finished_at now)
unfolding is_history_over
is_history_over-within now t = is_within-history t.state t.finished_at now

pub kept_tasks-filter :
    (w : World) (ts : List Task) {kept : List Task}
    → kept_tasks w ts ≡ ok kept
    → kept ≡ in_history w.now ts
unfolding kept_tasks in_history
kept_tasks-filter w [] h = ground arith
kept_tasks-filter w (t ∷ ts) {kept} h = elim (Fallible-cases (kept_tasks w ts)) [
  | inr (e, bad) ↦ absurd (ground arith)
  | inl (rest, e) ↦ ground (arith, is_history_over-within w.now t, kept_tasks-filter w ts e)
]

-- What a map of owners answers after the sweep of some of them.
abbrev swept_tasks : ℕ → Text → Map (List Task) → Option (List Task) → Option (List Task)
swept_tasks now o todo old = elim (lookup o todo) [
  | none ↦ old
  | some ts ↦ some (in_history now ts)
]

pub still_there :
    (owner : Text) (ts : List Task) (rest : Map (List Task)) (s : Store)
    → lookup owner rest ≡ none
    → ((j : Text) (xs : List Task)
        → lookup j ((owner, ts) ∷ rest) ≡ some xs
        → lookup j s.index.owners ≡ some xs)
    → (kept : List Task) (j : Text) (xs : List Task) → lookup j rest ≡ some xs
    → (lookup j s.index.owners ≡ some xs) × (lookup j (insert owner kept s.index.owners) ≡ some xs)
unfolding lookup
still_there owner ts rest s absent there kept j xs h =
    let other : text_eq owner j ≡ false = ground (arith, text_eq_iff owner j) in
    let here : lookup j s.index.owners ≡ some xs = there j xs (ground arith) in
    (here, ground (arith, lookup-insert owner j kept s.index.owners))

sweep_owners-lookup :
    (w : World) (k : ℕ) (todo : Map (List Task)) (s : Store) (o : Text) {s' : Store}
    → HasDistinctKeys todo
    → ((j : Text) (ts : List Task) → lookup j todo ≡ some ts → lookup j s.index.owners ≡ some ts)
    → sweep_owners w k todo s ≡ (s', ok tt)
    → lookup o s'.index.owners ≡ swept_tasks w.now o todo (lookup o s.index.owners)
unfolding sweep_owners lookup in_history
sweep_owners-lookup w k [] s o d there h = ground arith
sweep_owners-lookup w k ((owner, ts) ∷ rest) s o {s'} d there h =
    elim (Fallible-cases (kept_tasks w ts)) [
      | inr (e, bad) ↦ absurd (ground arith)
      | inl (kept, eq) ↦
          let same : kept ≡ in_history w.now ts = kept_tasks-filter w ts eq in
          let absent : lookup owner rest ≡ none = d.0 in
          elim (Bool-cases (length kept == length ts)) [
            | inl all_kept ↦
                let whole : in_history w.now ts ≡ ts =
                  filter-eq_of_length (λ t. is_within t.state t.finished_at w.now) ts
                    (ground arith) in
                ground (
                  arith,
                  absent,
                  same,
                  whole,
                  text_eq_iff owner o,
                  there owner ts,
                  sweep_owners-lookup w (suc k) rest s o {s' = s'} d.1
                      (λ j xs e. (still_there owner ts rest s absent there kept j xs e).0),
                )
            | inr fewer ↦
                elim (Fallible-cases (save_locked (w.sweep k) no_extra (with_tasks owner kept s))) [
                  | inr (e, bad) ↦ absurd (ground arith)
                  | inl (saved, save) ↦
                      let index : saved.index ≡ (with_tasks owner kept s).index =
                        save_locked-index (w.sweep k) no_extra (with_tasks owner kept s) save in
                      ground (
                        arith,
                        absent,
                        same,
                        index,
                        text_eq_iff owner o,
                        lookup-insert owner o kept s.index.owners,
                        sweep_owners-lookup w (suc k) rest saved o {s' = s'} d.1 (λ j xs e.
                            ap (λ (i : Index). lookup j i.owners) index
                            ∙ (still_there owner ts rest s absent there kept j xs e).1),
                      )
                ]
          ]
    ]

pub update_tables-index :
    (commit : Bool) (extra : Extra) (s : Store) {s' : Store}
    → update_tables commit extra s ≡ ok s'
    → s'.index ≡ s.index
unfolding update_tables
update_tables-index commit extra s h = ground arith

pub sweep_receipts-owners :
    (w : World) (s : Store) → (sweep_receipts w s).0.index.owners ≡ s.index.owners
unfolding sweep_receipts
sweep_receipts-owners w s =
    let cleared : Map ClearedReceipt = fresh (λ (r : ClearedReceipt). r.at) w.now s.index.cleared in
    let rejected : Map Rejection = fresh (λ (r : Rejection). r.at) w.now s.index.rejected in
    let swept : Store = with_receipts cleared rejected s in
    elim (Fallible-cases (save_locked (w.sweep 1) no_extra swept)) [
      | inr (e, bad) ↦ ground arith
      | inl (saved, save) ↦ ground (arith, save_locked-index (w.sweep 1) no_extra swept save)
    ]

-- A sweep that ends well keeps exactly each owner's tasks that stand in the history, in their order
-- and unchanged, where no owner has two lists: those that run or deliver, whatever their age, and
-- those that have succeeded, failed, been interrupted or been cancelled and whose end is less than
-- 30 days of 24 hours ago. A task in a state that the program does not know is kept too.
pub cleanup-in_history :
    (w : World) (s : Store) (o : Text) {s' : Store}
    → HasDistinctKeys s.index.owners
    → cleanup w s ≡ (s', ok tt)
    → tasks_of o s'.index ≡ in_history w.now (tasks_of o s.index)
unfolding cleanup in_history
cleanup-in_history w s o {s'} d h =
    elim (Fallible-cases (update_tables (w.sweep 0) (expire_rows w.now) s)) [
      | inr (e, bad) ↦ absurd (ground arith)
      | inl (expired, e) ↦
          let swept : Store = (sweep_receipts w expired).0 in
          let same : swept.index.owners ≡ s.index.owners =
            sweep_receipts-owners w expired
            ∙ ap (λ (i : Index). i.owners)
                (update_tables-index (w.sweep 0) (expire_rows w.now) s e) in
          let done : sweep_owners w 2 swept.index.owners swept ≡ (s', ok tt) = ground arith in
          ground (
            arith,
            same,
            sweep_owners-lookup w 2 swept.index.owners swept o (subst HasDistinctKeys (sym same) d)
                (λ j xs x. x) done,
          )
    ]

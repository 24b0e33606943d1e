-- ===== src/Request/Release/Expiry.antt =====
-- core/request/completion.go: the next expiry that `Capacity` reports.
use codex_link_clawbot.Prelude.{
  ltb, leb, ◌==◌, all, ℕ, ◌+◌, ◌≡◌, refl, Bool, true, ◌&&◌, ◌||◌, not, List, [], ◌∷◌, arith,
}
use codex_link_clawbot.Text.{Text}
use codex_link_clawbot.Request.Types.{history_retention, Task, Index}
use codex_link_clawbot.Request.Retention.{all_tasks}
use codex_link_clawbot.Request.Release.{earlier, next_expiry_of, capacity_of}

-- Whether an expiry is none (0) or still to come.
abbrev pub to_come : ℕ → ℕ → Bool
to_come now best = best == 0 || ltb now best

-- Whether an expiry comes, and no later than a time that is still to come.
abbrev pub comes_by : ℕ → ℕ → ℕ → Bool
comes_by now best at = not (ltb now at) || (ltb 0 best && leb best at)

-- Whether an expiry comes no later than each of a task's times.
abbrev pub comes_first : ℕ → ℕ → Task → Bool
comes_first now best t =
    comes_by now best t.payload_expires_at
    && comes_by now best t.result_expires_at
    && comes_by now best (t.finished_at + history_retention)

earlier-comes_by :
    (now best at : ℕ)
    → (comes_by now (earlier now best at) at ≡ true)
      × (to_come now best ≡ true → to_come now (earlier now best at) ≡ true)
unfolding earlier
earlier-comes_by now best at = (ground arith, λ h. ground arith)

earlier-keeps :
    (now best at x : ℕ) → comes_by now best x ≡ true → comes_by now (earlier now best at) x ≡ true
unfolding earlier
earlier-keeps now best at x h = ground arith

-- What the expiry before a task's times was compared with stays ahead of the expiry after them.
next_expiry_of-keeps :
    (now best x : ℕ) (ts : List Task)
    → comes_by now best x ≡ true
    → comes_by now (next_expiry_of now best ts) x ≡ true
unfolding next_expiry_of
next_expiry_of-keeps now best x [] h = h
next_expiry_of-keeps now best x (t ∷ ts) h =
    let one : ℕ = earlier now best t.payload_expires_at in
    let two : ℕ = earlier now one t.result_expires_at in
    next_expiry_of-keeps now (earlier now two (t.finished_at + history_retention)) x ts (
      earlier-keeps now two (t.finished_at + history_retention) x (
        earlier-keeps now one t.result_expires_at x
          (earlier-keeps now best t.payload_expires_at x h)))

next_expiry_of-first :
    (now best : ℕ) (ts : List Task) → all (comes_first now (next_expiry_of now best ts)) ts ≡ true
unfolding next_expiry_of
next_expiry_of-first now best [] = refl
next_expiry_of-first now best (t ∷ ts) =
    let one : ℕ = earlier now best t.payload_expires_at in
    let two : ℕ = earlier now one t.result_expires_at in
    let three : ℕ = earlier now two (t.finished_at + history_retention) in
    let a = next_expiry_of-keeps now three t.payload_expires_at ts (
      earlier-keeps now two (t.finished_at + history_retention) t.payload_expires_at (
        earlier-keeps now one t.result_expires_at t.payload_expires_at
          (earlier-comes_by now best t.payload_expires_at).0)) in
    let b = next_expiry_of-keeps now three t.result_expires_at ts (
      earlier-keeps now two (t.finished_at + history_retention) t.result_expires_at
        (earlier-comes_by now one t.result_expires_at).0) in
    let c =
      next_expiry_of-keeps now three (t.finished_at + history_retention) ts
        (earlier-comes_by now two (t.finished_at + history_retention)).0 in
    ground (arith, a, b, c, next_expiry_of-first now three ts)

next_expiry_of-to_come :
    (now best : ℕ) (ts : List Task)
    → to_come now best ≡ true
    → to_come now (next_expiry_of now best ts) ≡ true
unfolding next_expiry_of
next_expiry_of-to_come now best [] h = h
next_expiry_of-to_come now best (t ∷ ts) h =
    let one : ℕ = earlier now best t.payload_expires_at in
    let two : ℕ = earlier now one t.result_expires_at in
    next_expiry_of-to_come now (earlier now two (t.finished_at + history_retention)) ts (
      (earlier-comes_by now two (t.finished_at + history_retention)).1 (
        (earlier-comes_by now one t.result_expires_at).1
          ((earlier-comes_by now best t.payload_expires_at).1 h)))

-- The next expiry that `Capacity` reports is none or still to come, and it comes no later than
-- every expiry of an input, a result or a record of any owner that is still to come.
pub capacity_of-next_expiry :
    (now : ℕ) (owner : Text) (i : Index)
    → (to_come now (capacity_of now owner i).next_expiry ≡ true)
      × (all (comes_first now (capacity_of now owner i).next_expiry) (all_tasks i.owners) ≡ true)
unfolding capacity_of
capacity_of-next_expiry now owner i = (
  next_expiry_of-to_come now 0 (all_tasks i.owners) refl,
  next_expiry_of-first now 0 (all_tasks i.owners),
)

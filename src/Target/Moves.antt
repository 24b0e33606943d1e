-- ===== src/Target/Moves.antt =====
-- core/target/store.go: the revision of an owner's selection, and a snapshot of it.
use codex_link_clawbot.Prelude.{
  ◌==◌, if◌then◌else◌, Fallible-cases, ok, err, ℕ, ◌+◌, ◌%◌, ◌^◌, ◌<◌, ◌≡◌, refl, inl, inr, false,
  Option, none, some, [], ◌∷◌, arith,
}
use codex_link_clawbot.Text.{Text, text_eq, text_eq_iff, is_empty, trim_space}
use codex_link_clawbot.Map.{Map, lookup, get_or, lookup-insert, HasDistinctKeys}
use codex_link_clawbot.Request.Storage.{delete_missing}
use codex_link_clawbot.Target.{
  validate_targets, revision_of, snapshot_target, has_moved, bump, bump_moved, write_owners,
  commit_targets, select_thread, OwnerState, selection_changed, Targets, TargetWorld,
}

-- A revision after one more move, if there was one.
abbrev pub moved_on : Option OwnerState → OwnerState → ℕ → ℕ
moved_on old o r = if has_moved old o then (r + 1) % 2 ^ 64 else r

lookup-bump :
    (j owner : Text) (revisions : Map ℕ)
    → get_or owner 0 (bump j revisions) ≡ (
        if text_eq j owner
        then (get_or owner 0 revisions + 1) % 2 ^ 64
        else get_or owner 0 revisions)
unfolding bump
lookup-bump j owner revisions = ground (
  arith,
  text_eq_iff j owner,
  lookup-insert j owner ((get_or j 0 revisions + 1) % 2 ^ 64) revisions,
)

-- The revision of an owner after the loop over the owners of a save.
bump_moved-revision :
    (previous next : Map OwnerState) (revisions : Map ℕ) (owner : Text)
    → HasDistinctKeys next
    → get_or owner 0 (bump_moved previous next revisions) ≡ (elim (lookup owner next) [
      | none ↦ get_or owner 0 revisions
      | some o ↦ moved_on (lookup owner previous) o (get_or owner 0 revisions)
    ])
unfolding bump_moved lookup
bump_moved-revision previous [] revisions owner d = refl
bump_moved-revision previous ((j, x) ∷ next) revisions owner d =
    let later : Map ℕ = if has_moved (lookup j previous) x then bump j revisions else revisions in
    ground (
      arith,
      text_eq_iff j owner,
      lookup-bump j owner revisions,
      bump_moved-revision previous next later owner d.1,
    )

-- What a commit leaves.
pub commit_targets-ok :
    (w : TargetWorld) (next : Map OwnerState) (s : Targets) {s' : Targets}
    → commit_targets w next s ≡ ok s'
    → (s'.owners ≡ next)
      × (s'.revisions ≡ bump_moved s.owners next s.revisions)
      × (validate_targets w.is_uuid 1 next ≡ ok tt)
      × (s'.rows ≡ write_owners s.owners next (delete_missing s.owners next s.rows))
unfolding commit_targets
commit_targets-ok w next s h = elim (Fallible-cases (validate_targets w.is_uuid 1 next)) [
  | inr (e, bad) ↦ absurd (ground arith)
  | inl (tt, good) ↦ (ground arith, ground arith, good, ground arith)
]

-- A run of commits, and how many of them moved the owner's selection.
pub data Commits (owner : Text) (s : Targets) : Targets → ℕ → Type 0 where
  none_yet : Commits owner s s 0
  one_more :
      {s1 s2 : Targets} {m n : ℕ}
      → Commits owner s s1 m
      → (w : TargetWorld) (next : Map OwnerState) (o : OwnerState) → HasDistinctKeys next
      → lookup owner next ≡ some o
      → commit_targets w next s1 ≡ ok s2
      → n ≡ m + (if has_moved (lookup owner s1.owners) o then 1 else 0)
      → Commits owner s s2 n

Commits-revision :
    {owner : Text} {s s' : Targets} {n : ℕ}
    → Commits owner s s' n
    → revision_of owner s < 2 ^ 64
    → revision_of owner s' ≡ (revision_of owner s + n) % 2 ^ 64
Commits-revision Commits.none_yet small = omega arith
Commits-revision {owner} {s} {s'} {n}
      (Commits.one_more {s1} {s2} {m} run w next o d there done count) small =
    let (owners, revisions, valid, rows) = commit_targets-ok w next s1 done in
    ground (
      arith,
      revisions,
      there,
      count,
      bump_moved-revision s1.owners next s1.revisions owner d,
      Commits-revision run small,
    )

-- A snapshot of a selection goes stale for good: after commits of which at least one and fewer than
-- 2^64 moved the owner's selection, also when they moved it back, a thread that is selected against
-- the snapshot is refused, and nothing changes.
pub select_thread-stale :
    (w : TargetWorld) (owner workspace thread : Text) (s s' : Targets) (n : ℕ)
    → revision_of owner s < 2 ^ 64
    → Commits owner s s' n
    → 0 < n
    → n < 2 ^ 64
    → is_empty (trim_space thread) ≡ false
    → select_thread w owner workspace thread (snapshot_target owner s) s'
      ≡ (s', err selection_changed)
unfolding select_thread snapshot_target
select_thread-stale w owner workspace thread s s' n small run some_move few named =
    let later : revision_of owner s' ≡ (revision_of owner s + n) % 2 ^ 64 =
      Commits-revision run small in
    let other : (revision_of owner s' == revision_of owner s) ≡ false = ground (arith, later) in
    ground (arith, other, named)

-- ===== src/Target/Rows.antt =====
-- core/target/store.go: the rows in SQLite against the owners in memory.
use codex_link_clawbot.Prelude.{
  Option-cases, ok, ◌≡◌, refl, inl, inr, Option, none, some, [], ◌∷◌, arith,
}
use codex_link_clawbot.Text.{Text, text_eq_iff}
use codex_link_clawbot.Map.{
  Map, lookup, insert, contains, get_or, lookup-insert, HasDistinctKeys, Agrees,
}
use codex_link_clawbot.Request.Storage.{delete_missing, is_changed, put_changed}
use codex_link_clawbot.Request.Storage.Delta.{lookup-delete_missing, lookup-put_changed}
use codex_link_clawbot.Target.{
  Text-discrete, Intent-discrete, empty_owner, write_owner, write_owners, commit_targets,
  OwnerState, Targets, TargetWorld,
}
use codex_link_clawbot.Target.Moves.{commit_targets-ok}

-- The rows of an owner hold its state.
pub record OwnerAgrees (row o : OwnerState) : Type 0 where
  pub workspace : row.workspace_id ≡ o.workspace_id
  pub selections : Agrees row.current o.current
  pub targets : Agrees row.intents o.intents

-- A state that a Go map can hold: no key stands twice.
pub record OwnerIsMap (o : OwnerState) : Type 0 where
  pub current_keys : HasDistinctKeys o.current
  pub intent_keys : HasDistinctKeys o.intents

module _ {V : Type 0} (dec : Discrete V) where
  -- The delta with the deletions after the writes.
  put_then_delete-Agrees :
      (base next rows : Map V)
      → HasDistinctKeys next
      → Agrees rows base
      → Agrees (delete_missing base next (put_changed dec base next rows)) next
  unfolding contains is_changed
  put_then_delete-Agrees base next rows d agree j = ground (
    arith,
    lookup-delete_missing j base next (put_changed dec base next rows),
    lookup-put_changed dec j base next rows d,
    agree j,
  )

write_owner-Agrees :
    (previous o row : OwnerState)
    → OwnerIsMap o
    → OwnerAgrees row previous
    → OwnerAgrees (write_owner previous o row) o
unfolding write_owner
write_owner-Agrees previous o row m agree = record {
  workspace = ground (arith, agree.workspace, text_eq_iff previous.workspace_id o.workspace_id);
  selections =
      put_then_delete-Agrees Text-discrete previous.current o.current row.current m.current_keys
        agree.selections;
  targets =
      put_then_delete-Agrees Intent-discrete previous.intents o.intents row.intents m.intent_keys
        agree.targets;
}

lookup-write_owners :
    (j : Text) (previous next rows : Map OwnerState)
    → HasDistinctKeys next
    → lookup j (write_owners previous next rows) ≡ (elim (lookup j next) [
      | none ↦ lookup j rows
      | some o ↦
          some (write_owner (get_or j (empty_owner []) previous) o (get_or j (empty_owner []) rows))
    ])
unfolding write_owners lookup
lookup-write_owners j previous [] rows d = refl
lookup-write_owners j previous ((k, o) ∷ next) rows d =
    let written : OwnerState =
      write_owner (get_or k (empty_owner []) previous) o (get_or k (empty_owner []) rows) in
    ground (
      arith,
      text_eq_iff k j,
      lookup-write_owners j previous next (insert k written rows) d.1,
      lookup-insert k j written rows,
    )

-- The rows of an owner against its state, where either may be missing.
pub data AgreesIfAny : Option OwnerState → Option OwnerState → Type 0 where
  neither : {row o : Option OwnerState} → row ≡ none → o ≡ none → AgreesIfAny row o
  both :
      {row o : Option OwnerState} (r x : OwnerState)
      → row ≡ some r
      → o ≡ some x
      → OwnerAgrees r x
      → AgreesIfAny row o

empty-Agrees : OwnerAgrees (empty_owner []) (empty_owner [])
empty-Agrees = record { workspace = refl; selections = λ k. refl; targets = λ k. refl }

-- A commit that ends well leaves SQLite's rows of every owner equal to the owner's state in memory,
-- where they were equal before and no map of the new state has a key twice: what the save leaves
-- out was there already, and what is gone is deleted.
pub commit_targets-Agrees :
    (w : TargetWorld) (next : Map OwnerState) (s : Targets) {s' : Targets}
    → HasDistinctKeys next
    → ((j : Text) (o : OwnerState) → lookup j next ≡ some o → OwnerIsMap o)
    → ((j : Text) → AgreesIfAny (lookup j s.rows) (lookup j s.owners))
    → commit_targets w next s ≡ ok s'
    → (j : Text) → AgreesIfAny (lookup j s'.rows) (lookup j s'.owners)
unfolding contains
commit_targets-Agrees w next s {s'} d maps agree h j =
    let (owners, revisions, valid, rows) = commit_targets-ok w next s h in
    let kept : Map OwnerState = delete_missing s.owners next s.rows in
    let cut = lookup-delete_missing j s.owners next s.rows in
    let wrote = lookup-write_owners j s.owners next kept d in
    elim (Option-cases (lookup j next)) [
      | inl gone ↦ elim (agree j) [
        | neither r n ↦
            AgreesIfAny.neither (ground (arith, gone, rows, cut, wrote))
              (ground (arith, owners, gone))
        | both r x is_r is_x a ↦
            AgreesIfAny.neither (ground (arith, gone, rows, cut, wrote))
              (ground (arith, owners, gone))
      ]
      | inr (o, there) ↦ elim (agree j) [
        | neither r n ↦
            AgreesIfAny.both (write_owner (empty_owner []) o (empty_owner [])) o
              (ground (arith, there, rows, cut, wrote)) (ground (arith, owners, there))
              (write_owner-Agrees (empty_owner []) o (empty_owner []) (maps j o there) empty-Agrees)
        | both r x is_r is_x a ↦
            AgreesIfAny.both (write_owner x o r) o (ground (arith, there, rows, cut, wrote))
              (ground (arith, owners, there)) (write_owner-Agrees x o r (maps j o there) a)
      ]
    ]

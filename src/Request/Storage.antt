-- ===== src/Request/Storage.antt =====
-- core/request/sqlite.go: the rows that SQLite holds and the delta that a save writes.
-- The rows of a result in `results`, `artifacts`, `result_urls` and `delivery_receipts` are one
-- `Result` here, and those of an input one `Request`.
use codex_link_clawbot.Prelude.{
  ◌==◌, if◌then◌else◌, ◌>>=◌, ◌>>◌, Fallible, ok, err, ℕ, Bool, true, false, Option, none, some,
  List, [], ◌∷◌,
}
use codex_link_clawbot.Text.{Text}
use codex_link_clawbot.Map.{Map, lookup, insert, delete, contains}
use codex_link_clawbot.Request.Types.{
  Task, Rejection, ClearedReceipt, Index, Request, ResultArtifact, Result, Completion, Error,
  storage_failed,
}
use codex_link_clawbot.Request.Valid.{Libraries}
use codex_link_clawbot.Request.Index.{validate_index}
pub mod Delta
pub mod Synced
use native.Mathlib.Decide.{ℕ_discrete}

-- `persistedIndex`: the committed state that a delta is taken against.
pub record Snapshot : Type 0 where
  pub tasks : Map Task
  pub rejected : Map Rejection
  pub cleared : Map ClearedReceipt
  pub next_order : ℕ

pub record Tables : Type 0 where
  pub requests : Map Task
  pub rejected_sources : Map Rejection
  pub cleared_sources : Map ClearedReceipt
  pub next_order : ℕ
  pub inputs : Map Request
  pub completions : Map Completion
  pub results : Map Result

pub record Store : Type 0 where
  pub index : Index
  pub persisted : Snapshot
  pub tables : Tables

pub Task-discrete : Discrete Task
Task-discrete = hlevel ℕ_discrete

pub Rejection-discrete : Discrete Rejection
Rejection-discrete = hlevel ℕ_discrete

pub ClearedReceipt-discrete : Discrete ClearedReceipt
ClearedReceipt-discrete = hlevel ℕ_discrete

module _ {V : Type 0} where
  -- The rows of the baseline that the next state lacks are deleted.
  unfoldable pub delete_missing : Map V → Map V → Map V → Map V
  unfolding contains
  delete_missing [] next rows = rows
  delete_missing ((k, v) ∷ base) next rows =
      delete_missing base next (if contains k next then rows else delete k rows)

  -- `old, ok := base[k]; !ok || old != row`
  unfoldable pub is_changed : Discrete V → Option V → V → Bool
  is_changed dec none v = true
  is_changed dec (some old) v = elim (dec old v) [ yes e ↦ false | no n ↦ true ]

  -- The rows of the next state that the baseline lacks or holds otherwise are put.
  unfoldable pub put_changed : Discrete V → Map V → Map V → Map V → Map V
  unfolding is_changed
  put_changed dec base [] rows = rows
  put_changed dec base ((k, v) ∷ next) rows =
      put_changed dec base next (if is_changed dec (lookup k base) v then insert k v rows else rows)

  unfoldable pub write_delta : Discrete V → Map V → Map V → Map V → Map V
  unfolding delete_missing put_changed
  write_delta dec base next rows = put_changed dec base next (delete_missing base next rows)

-- ON DELETE CASCADE: the inputs, completions and results of a deleted request go with it.
unfoldable pub cascade : {V : Type 0} → Map Task → Map Task → Map V → Map V
unfolding contains
cascade [] next rows = rows
cascade ((k, v) ∷ base) next rows =
    cascade base next (if contains k next then rows else delete k rows)

unfoldable pub insert_tasks : List Task → Map Task → Map Task
insert_tasks [] m = m
insert_tasks (t ∷ ts) m = insert_tasks ts (insert t.id t m)

unfoldable pub insert_owners : Map (List Task) → Map Task → Map Task
unfolding insert_tasks
insert_owners [] m = m
insert_owners ((owner, ts) ∷ rest) m = insert_owners rest (insert_tasks ts m)

-- `snapshotIndex`
unfoldable pub snapshot_index : Index → Snapshot
unfolding insert_owners
snapshot_index i = record {
  tasks = insert_owners i.owners [];
  rejected = i.rejected;
  cleared = i.cleared;
  next_order = i.next_order;
}

-- The statements that `saveLocked` runs before the caller's own.
unfoldable pub write_index : Snapshot → Snapshot → Tables → Tables
unfolding write_delta cascade
write_index base next t = record t {
  requests = write_delta Task-discrete base.tasks next.tasks t.requests;
  rejected_sources = write_delta Rejection-discrete base.rejected next.rejected t.rejected_sources;
  cleared_sources = write_delta ClearedReceipt-discrete base.cleared next.cleared t.cleared_sources;
  next_order = if next.next_order == base.next_order then t.next_order else next.next_order;
  inputs = cascade base.tasks next.tasks t.inputs;
  completions = cascade base.tasks next.tasks t.completions;
  results = cascade base.tasks next.tasks t.results;
}

-- The `extra` functions of a save: statements of the same transaction.
abbrev pub Extra : Type 0
Extra = Tables → Fallible Error Tables

abbrev pub no_extra : Extra
no_extra t = ok t

-- `saveLocked`. The first argument is SQLite's answer: whether the transaction commits. On an
-- error the store is as it was, and the baseline does not move.
unfoldable pub save_locked : Bool → Extra → Store → Fallible Error Store
unfolding snapshot_index write_index
save_locked commit extra s = do
  validate_index s.index
  let next = snapshot_index s.index
  tables ← extra (write_index s.persisted next s.tables)
  if commit then ok (record s { persisted = next; tables = tables }) else err storage_failed

-- `storage.Update` outside of a save.
unfoldable pub update_tables : Bool → Extra → Store → Fallible Error Store
update_tables commit extra s = do
  tables ← extra s.tables
  if commit then ok (record s { tables = tables }) else err storage_failed

-- The world of one call: the clock, read once; SQLite's answers for the call's own transaction and
-- for those of the sweep before it; whether the files of a task can be removed; whether an
-- artifact's file is the frozen one; whether a task's directory is there and private.
pub record World : Type 0 where
  pub lib : Libraries
  pub now : ℕ
  pub commit : Bool
  pub sweep : ℕ → Bool
  pub removable : Text → Bool
  pub artifact_ok : Text → ResultArtifact → Bool
  pub root_ok : Text → Bool

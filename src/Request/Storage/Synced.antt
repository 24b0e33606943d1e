-- ===== src/Request/Storage/Synced.antt =====
-- core/request/sqlite.go: the rows in SQLite against the index in memory.
use codex_link_clawbot.Prelude.{ok, ◌≡◌, sym, subst, Bool, List, [], ◌∷◌, arith}
use codex_link_clawbot.Map.{Map, insert, HasDistinctKeys, insert-HasDistinctKeys, Agrees}
use codex_link_clawbot.Request.Types.{Task, Index}
use codex_link_clawbot.Request.Storage.{
  Task-discrete, Rejection-discrete, ClearedReceipt-discrete, insert_tasks, insert_owners,
  snapshot_index, write_index, no_extra, save_locked, Snapshot, Tables, Store,
}
use codex_link_clawbot.Request.Storage.Delta.{write_delta-Agrees}

insert_tasks-HasDistinctKeys :
    (ts : List Task) (m : Map Task) → HasDistinctKeys m → HasDistinctKeys (insert_tasks ts m)
unfolding insert_tasks
insert_tasks-HasDistinctKeys [] m d = d
insert_tasks-HasDistinctKeys (t ∷ ts) m d =
    insert_tasks-HasDistinctKeys ts (insert t.id t m) (insert-HasDistinctKeys t.id t m d)

insert_owners-HasDistinctKeys :
    (owners : Map (List Task)) (m : Map Task)
    → HasDistinctKeys m
    → HasDistinctKeys (insert_owners owners m)
unfolding insert_owners
insert_owners-HasDistinctKeys [] m d = d
insert_owners-HasDistinctKeys ((owner, ts) ∷ rest) m d =
    insert_owners-HasDistinctKeys rest (insert_tasks ts m) (insert_tasks-HasDistinctKeys ts m d)

-- The rows are those of the last committed snapshot.
pub record RowsAgree (s : Snapshot) (t : Tables) : Type 0 where
  pub requests : Agrees t.requests s.tasks
  pub rejected : Agrees t.rejected_sources s.rejected
  pub cleared : Agrees t.cleared_sources s.cleared
  pub order : t.next_order ≡ s.next_order

write_index-RowsAgree :
    (base : Snapshot) (i : Index) (t : Tables)
    → HasDistinctKeys i.rejected
    → HasDistinctKeys i.cleared
    → RowsAgree base t
    → RowsAgree (snapshot_index i) (write_index base (snapshot_index i) t)
unfolding write_index snapshot_index
write_index-RowsAgree base i t dr dc agree = record {
  requests =
      write_delta-Agrees Task-discrete base.tasks (insert_owners i.owners []) t.requests
        (insert_owners-HasDistinctKeys i.owners [] tt) agree.requests;
  rejected =
      write_delta-Agrees Rejection-discrete base.rejected i.rejected t.rejected_sources dr
        agree.rejected;
  cleared =
      write_delta-Agrees ClearedReceipt-discrete base.cleared i.cleared t.cleared_sources dc
        agree.cleared;
  order = ground (arith, agree.order);
}

-- A save that commits, with no statement of its caller's, leaves SQLite's request, rejection and
-- cleared rows and the order equal to the index in memory, if they were equal to the last committed
-- baseline: what a delta leaves out was there already.
pub save_locked-RowsAgree :
    (commit : Bool) (s : Store) {s' : Store}
    → HasDistinctKeys s.index.rejected
    → HasDistinctKeys s.index.cleared
    → RowsAgree s.persisted s.tables
    → save_locked commit no_extra s ≡ ok s'
    → RowsAgree (snapshot_index s'.index) s'.tables
unfolding save_locked
save_locked-RowsAgree commit s {s'} dr dc agree h =
    let same : s' ≡ record s {
      persisted = snapshot_index s.index;
      tables = write_index s.persisted (snapshot_index s.index) s.tables;
    } =
      ground arith in
    subst (λ (x : Store). RowsAgree (snapshot_index x.index) x.tables) (sym same)
      (write_index-RowsAgree s.persisted s.index s.tables dr dc agree)

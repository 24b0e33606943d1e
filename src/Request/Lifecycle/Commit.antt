-- ===== src/Request/Lifecycle/Commit.antt =====
-- core/request/lifecycle.go: a change of one owner's tasks and its save.
use codex_link_clawbot.Prelude.{ok, err, ◌≡◌, ap, Bool, true, some, List, arith}
use codex_link_clawbot.Text.{Text}
use codex_link_clawbot.Map.{lookup, insert-restore}
use codex_link_clawbot.Request.Types.{Task, Error}
use codex_link_clawbot.Request.Storage.{Extra, save_locked, Store}
use codex_link_clawbot.Request.Lifecycle.{with_tasks, commit_tasks}

-- A save that commits keeps the index that it was given.
pub save_locked-index :
    (commit : Bool) (extra : Extra) (s : Store) {s' : Store}
    → save_locked commit extra s ≡ ok s'
    → s'.index ≡ s.index
unfolding save_locked
save_locked-index commit extra s h = ground arith

pub save_locked-commit :
    (commit : Bool) (extra : Extra) (s : Store) {s' : Store}
    → save_locked commit extra s ≡ ok s'
    → commit ≡ true
unfolding save_locked
save_locked-commit commit extra s h = ground arith

-- The old tasks of an owner put back after a write.
pub with_tasks-restore :
    (owner : Text) (previous tasks : List Task) (s : Store)
    → lookup owner s.index.owners ≡ some previous
    → with_tasks owner previous (with_tasks owner tasks s) ≡ s
with_tasks-restore owner previous tasks s h =
    ap (λ m. record s { index = record (s.index) { owners = m } })
      (insert-restore owner previous tasks s.index.owners h)

pub commit_tasks-ok :
    {A : Type 0} (commit : Bool) (extra : Extra) (owner : Text) (previous tasks : List Task)
    (result : A) (s : Store) {s' : Store} {a : A}
    → commit_tasks commit extra owner previous tasks result s ≡ (s', ok a)
    → (save_locked commit extra (with_tasks owner tasks s) ≡ ok s') × (a ≡ result)
unfolding commit_tasks
commit_tasks-ok commit extra owner previous tasks result s h = ground arith

pub commit_tasks-err :
    {A : Type 0} (commit : Bool) (extra : Extra) (owner : Text) (previous tasks : List Task)
    (result : A) (s : Store) {s' : Store} {e : Error}
    → lookup owner s.index.owners ≡ some previous
    → commit_tasks commit extra owner previous tasks result s ≡ (s', err e)
    → s' ≡ s
unfolding commit_tasks
commit_tasks-err commit extra owner previous tasks result s found h =
    ground (arith, with_tasks-restore owner previous tasks s found)

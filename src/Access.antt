-- ===== src/Access.antt =====
-- core/access/remote_lock.go: the lock that an owner sets from afar and a code removes. A nil lock,
-- which is not enabled and locks nobody, is left out.
use codex_link_clawbot.Prelude.{
  ◌==◌, if◌then◌else◌, ◌>>=◌, ◌>>◌, reject_if, Fallible, ok, err, any, ℕ, Bool, true, false, ◌&&◌,
  ◌||◌, not, List, [], ◌∷◌, map,
}
use codex_link_clawbot.Text.{Text, text_eq, is_empty, trim_space}
use codex_link_clawbot.Map.{Map, insert, delete, get_or}
pub mod Locked

-- What `set` and `saveLocked` return as errors.
pub data LockError : Type 0 where
  not_configured incorrect_code owner_required invalid_schema invalid_lock_owner : LockError
  lock_not_saved code_needed : LockError

-- `RemoteLock`, with the rows of `remote_locks`.
pub record RemoteLock : Type 0 where
  pub code : Text
  pub version : ℕ
  pub owners : Map Bool
  pub rows : List Text

-- `validateRemoteLockState`
unfoldable pub validate_state : RemoteLock → Fallible LockError (Unit {0})
validate_state l = do
  reject_if (not (l.version == 1)) invalid_schema
  reject_if (any (λ e. is_empty (trim_space e.0) || not e.1) l.owners) invalid_lock_owner
  ok tt

abbrev pub with_rows : List Text → Map Bool
with_rows [] = []
with_rows (o ∷ os) = insert o true (with_rows os)

-- `NewRemoteLock`, on the rows that it reads.
unfoldable pub new_lock : Text → List Text → Fallible LockError RemoteLock
unfolding validate_state
new_lock code rows =
    let l : RemoteLock = record {
      code = code;
      version = 1;
      owners = with_rows rows;
      rows = rows;
    } in
    do validate_state l; reject_if (is_empty code && any (λ e. e.1) l.owners) code_needed; ok l

-- `Enabled`
unfoldable pub enabled : RemoteLock → Bool
enabled l = not (is_empty l.code)

-- `IsLocked`
unfoldable pub is_locked : RemoteLock → Text → Bool
is_locked l owner = get_or owner false l.owners

abbrev pub with_owners : Map Bool → RemoteLock → RemoteLock
with_owners owners l = record l { owners = owners }

-- `saveLocked`: all rows are deleted and the owners of the map are put.
unfoldable pub save_lock : Bool → RemoteLock → Fallible LockError RemoteLock
unfolding validate_state
save_lock commit l = do
  validate_state l
  if commit then ok (record l { rows = map (λ e. e.0) l.owners }) else err lock_not_saved

-- `set`: the change in memory goes back when the save fails.
unfoldable pub set_lock :
    Bool → Text → Bool → RemoteLock → RemoteLock × Fallible LockError (Unit {0})
unfolding save_lock
set_lock commit raw locked l =
    let owner = trim_space raw in
    let changed =
      with_owners (if locked then insert owner true l.owners else delete owner l.owners) l in
    if is_empty owner then (l, err owner_required) else elim (save_lock commit changed) [
      | ok saved ↦ (saved, ok tt)
      | err e ↦ (
        with_owners
            (if get_or owner false l.owners
              then insert owner true changed.owners
              else delete owner changed.owners)
            changed,
        err e,
      )
    ]

-- `Lock`
unfoldable pub lock : Bool → Text → RemoteLock → RemoteLock × Fallible LockError (Unit {0})
unfolding enabled set_lock
lock commit owner l =
    if not (enabled l) then (l, err not_configured) else set_lock commit owner true l

-- `Unlock`
unfoldable pub unlock : Bool → Text → Text → RemoteLock → RemoteLock × Fallible LockError (Unit {0})
unfolding enabled set_lock
unlock commit owner code l =
    if not (enabled l)
    then (l, err not_configured)
    else if not (text_eq code l.code)
    then (l, err incorrect_code)
    else set_lock commit owner false l

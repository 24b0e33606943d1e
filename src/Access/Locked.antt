-- ===== src/Access/Locked.antt =====
-- core/access/remote_lock.go: the lock after an operation and after a restart.
use codex_link_clawbot.Prelude.{
  if◌then◌else◌, Fallible-cases, ok, err, any, ◌≡◌, refl, inl, inr, Bool, true, false, ◌||◌, not,
  some, List, [], ◌∷◌, map, arith,
}
use codex_link_clawbot.Text.{Text, text_eq, text_eq_iff, text_eq_refl, is_empty, trim_space}
use codex_link_clawbot.Map.{Map, lookup, insert, delete, lookup-insert, lookup-delete}
use codex_link_clawbot.Access.{
  validate_state, with_rows, new_lock, is_locked, with_owners, save_lock, set_lock, unlock,
  LockError, RemoteLock,
}

abbrev is_bad_entry : (Text × Bool) → Bool
is_bad_entry e = is_empty (trim_space e.0) || not e.1

entries-true :
    (k : Text) (m : Map Bool) {b : Bool}
    → any is_bad_entry m ≡ false
    → lookup k m ≡ some b
    → b ≡ true
unfolding lookup
entries-true k [] h e = absurd (ground arith)
entries-true k ((j, v) ∷ m) {b} h e = ground (arith, entries-true k m {b = b})

validate_state-entries :
    (l : RemoteLock) → validate_state l ≡ ok tt → any is_bad_entry l.owners ≡ false
unfolding validate_state
validate_state-entries l h = ground arith

insert-entries :
    (k : Text) (m : Map Bool)
    → is_empty (trim_space k) ≡ false
    → any is_bad_entry m ≡ false
    → any is_bad_entry (insert k true m) ≡ false
unfolding insert
insert-entries k [] t h = ground arith
insert-entries k ((j, v) ∷ m) t h = ground (arith, insert-entries k m)

save_lock-ok :
    (commit : Bool) (l : RemoteLock) {l' : RemoteLock}
    → save_lock commit l ≡ ok l'
    → (validate_state l ≡ ok tt) × (l' ≡ record l { rows = map (λ e. e.0) l.owners })
unfolding save_lock
save_lock-ok commit l h = elim (Fallible-cases (validate_state l)) [
  | inr (e, bad) ↦ absurd (ground arith)
  | inl (tt, good) ↦ (good, ground arith)
]

-- After a lock or an unlock that ends well exactly the trimmed owner is set, and every other owner
-- is as before.
pub set_lock-is_locked :
    (commit : Bool) (raw : Text) (locked : Bool) (l : RemoteLock) (owner : Text) {l' : RemoteLock}
    → set_lock commit raw locked l ≡ (l', ok tt)
    → is_locked l' owner ≡ (if text_eq (trim_space raw) owner then locked else is_locked l owner)
unfolding set_lock is_locked
set_lock-is_locked commit raw locked l owner {l'} h =
    let owners : Map Bool =
      if locked then insert (trim_space raw) true l.owners else delete (trim_space raw) l.owners in
    elim (Fallible-cases (save_lock commit (with_owners owners l))) [
      | inr (e, bad) ↦ absurd (ground arith)
      | inl (saved, save) ↦
          let (good, same) = save_lock-ok commit (with_owners owners l) save in
          ground (
            arith,
            same,
            lookup-insert (trim_space raw) owner true l.owners,
            lookup-delete (trim_space raw) owner l.owners,
          )
    ]

-- A lock or an unlock that fails leaves everybody as locked as before, in memory and in SQLite,
-- where the state in memory was valid.
pub set_lock-atomic :
    (commit : Bool) (raw : Text) (locked : Bool) (l : RemoteLock) (owner : Text) {l' : RemoteLock}
    {e : LockError}
    → validate_state l ≡ ok tt
    → set_lock commit raw locked l ≡ (l', err e)
    → (is_locked l' owner ≡ is_locked l owner) × (l'.rows ≡ l.rows)
unfolding set_lock is_locked
set_lock-atomic commit raw locked l owner {l'} {e} valid h =
    let o : Text = trim_space raw in
    let owners : Map Bool = if locked then insert o true l.owners else delete o l.owners in
    (
      ground (
        arith,
        text_eq_iff o owner,
        entries-true owner l.owners {b = false} (validate_state-entries l valid),
        lookup-insert o owner true l.owners,
        lookup-delete o owner l.owners,
        lookup-insert o owner true owners,
        lookup-delete o owner owners,
      ),
      ground arith,
    )

-- An unlock that ends well was given the configured code, and the trimmed owner is not locked after
-- it.
pub unlock-code :
    (commit : Bool) (owner code : Text) (l : RemoteLock) {l' : RemoteLock}
    → unlock commit owner code l ≡ (l', ok tt)
    → (is_locked l' (trim_space owner) ≡ false) × (code ≡ l.code)
unfolding unlock
unlock-code commit owner code l {l'} h = (
  ground (
    arith,
    set_lock-is_locked commit owner false l (trim_space owner) {l' = l'},
    text_eq_refl (trim_space owner),
  ),
  ground (arith, text_eq_iff code l.code),
)

lookup-with_rows :
    (k : Text) (m : Map Bool)
    → any is_bad_entry m ≡ false
    → lookup k (with_rows (map (λ (e : Text × Bool). e.0) m)) ≡ lookup k m
unfolding lookup
lookup-with_rows k [] h = refl
lookup-with_rows k ((j, v) ∷ m) h = ground (
  arith,
  lookup-with_rows k m,
  lookup-insert j k true (with_rows (map (λ (e : Text × Bool). e.0) m)),
)

with_rows-entries :
    (m : Map Bool)
    → any is_bad_entry m ≡ false
    → any is_bad_entry (with_rows (map (λ (e : Text × Bool). e.0) m)) ≡ false
with_rows-entries [] h = refl
with_rows-entries ((j, v) ∷ m) h =
    insert-entries j (with_rows (map (λ (e : Text × Bool). e.0) m)) (ground arith)
      (with_rows-entries m (ground arith))

-- A lock or an unlock that ends well survives a restart with a code: the rows that it leaves load,
-- and the loaded lock answers every owner as the old one.
pub set_lock-restart :
    (commit : Bool) (raw : Text) (locked : Bool) (l : RemoteLock) (owner : Text) {l' : RemoteLock}
    → is_empty l.code ≡ false
    → set_lock commit raw locked l ≡ (l', ok tt)
    → (loaded : RemoteLock) × (new_lock l'.code l'.rows ≡ ok loaded)
      × (is_locked loaded owner ≡ is_locked l' owner)
unfolding set_lock new_lock is_locked validate_state
set_lock-restart commit raw locked l owner {l'} coded h =
    let owners : Map Bool =
      if locked then insert (trim_space raw) true l.owners else delete (trim_space raw) l.owners in
    elim (Fallible-cases (save_lock commit (with_owners owners l))) [
      | inr (e, bad) ↦ absurd (ground arith)
      | inl (saved, save) ↦
          let (good, same) = save_lock-ok commit (with_owners owners l) save in
          let entries = validate_state-entries (with_owners owners l) good in
          let rows : List Text = map (λ (e : Text × Bool). e.0) owners in
          (
            record { code = l.code; version = 1; owners = with_rows rows; rows = rows },
            ground (arith, same, with_rows-entries owners entries),
            ground (arith, same, lookup-with_rows owner owners entries),
          )
    ]

-- ===== src/Request/Release/Cleared.antt =====
-- core/request/completion.go: a request that its owner removes, and its source.
use codex_link_clawbot.Prelude.{
  Option-cases, Fallible-cases, ok, err, filter, ◌≡◌, refl, inl, inr, Bool, true, not, none, some,
  List, [], ◌∷◌, arith,
}
use codex_link_clawbot.Text.{Text, text_eq}
use codex_link_clawbot.Map.{
  Map, lookup, insert, delete, contains, lookup-insert_self, insert-restore, delete-restore,
}
use codex_link_clawbot.Request.Types.{
  terminal, Task, ClearedReceipt, StartInput, Error, already_cleared,
}
use codex_link_clawbot.Request.Index.{validate_index, find_task, tasks_of, find_task_locked}
use codex_link_clawbot.Request.Storage.{Extra, no_extra, save_locked, Store, World}
use codex_link_clawbot.Request.Lifecycle.Commit.{save_locked-index}
use codex_link_clawbot.Request.Release.{with_cleared, cleared_receipt, release}
use codex_link_clawbot.Request.Admission.{start_swept, Staging}
use codex_link_clawbot.Request.Admission.Unique.{validate_index-cleared}

find_task-filter :
    (id : Text) (ts : List Task) → find_task id (filter (λ x. not (text_eq x.id id)) ts) ≡ none
unfolding find_task
find_task-filter id [] = refl
find_task-filter id (t ∷ ts) = ground (arith, find_task-filter id ts)

save_locked-valid :
    (commit : Bool) (extra : Extra) (s : Store) {s' : Store}
    → save_locked commit extra s ≡ ok s'
    → validate_index s.index ≡ ok tt
unfolding save_locked
save_locked-valid commit extra s {s'} h = elim (Fallible-cases (validate_index s.index)) [
  | inl (tt, e) ↦ e
  | inr (e, bad) ↦ absurd (ground arith)
]

-- What `Release` leaves when it ends well.
pub release-ok :
    (w : World) (owner id : Text) (s : Store) {s' : Store} {t : Task}
    → find_task_locked s.index owner id ≡ some t
    → release w owner id s ≡ (s', ok tt)
    → (terminal t.state ≡ true)
      × (find_task_locked s'.index owner id ≡ none)
      × (contains t.source_message_key s'.index.cleared ≡ true)
      × (validate_index s'.index ≡ ok tt)
unfolding release find_task_locked contains
release-ok w owner id s {s'} {t} found h =
    let previous : List Task = tasks_of owner s.index in
    let left : List Task = filter (λ x. not (text_eq x.id id)) previous in
    let cleared : Map ClearedReceipt =
      insert t.source_message_key (cleared_receipt owner id t) s.index.cleared in
    let released : Store = with_cleared owner left cleared s in
    let gone : find_task id left ≡ none = find_task-filter id previous in
    elim (Fallible-cases (save_locked w.commit no_extra released)) [
      | inr (e, bad) ↦ absurd (ground arith)
      | inl (saved, save) ↦
          let same : s'.index ≡ released.index =
            ground (arith, save_locked-index w.commit no_extra released save) in
          (
            ground arith,
            ground (arith, same, gone, lookup-insert_self owner left s.index.owners),
            ground (
              arith,
              same,
              lookup-insert_self t.source_message_key (cleared_receipt owner id t) s.index.cleared,
            ),
            ground (arith, same, save_locked-valid w.commit no_extra released save),
          )
    ]

-- A request that Release removes is not found again, and its source is not run again: past the
-- sweep that Start makes first, a start of the source on the store that Release leaves is refused
-- as cleared and leaves that store as it is.
pub release-closes_source :
    (w later : World) (st : Staging) (again : StartInput) (owner id : Text) (s : Store) {s' : Store}
    {t : Task}
    → find_task_locked s.index owner id ≡ some t
    → release w owner id s ≡ (s', ok tt)
    → again.source_message_key ≡ t.source_message_key
    → (find_task_locked s'.index owner id ≡ none)
      × (start_swept later st again s' ≡ (s', err already_cleared))
unfolding start_swept
release-closes_source w later st again owner id s {s'} {t} found h same =
    let (ended, gone, closed, valid) = release-ok w owner id s found h in
    (
      gone,
      ground
          (arith, closed, same, validate_index-cleared t.source_message_key s'.index valid closed),
    )

restore_released :
    (owner source : Text) (previous left : List Task) (r : ClearedReceipt) (s : Store)
    → lookup owner s.index.owners ≡ some previous
    → lookup source s.index.cleared ≡ none
    → with_cleared owner previous
        (delete source (insert source r s.index.cleared))
        (with_cleared owner left (insert source r s.index.cleared) s)
      ≡ s
restore_released owner source previous left r s there absent = λ i. record s {
  index = record (s.index) {
    owners = insert-restore owner previous left s.index.owners there i;
    cleared = delete-restore source r s.index.cleared absent i;
  };
}

-- A release that fails leaves the store as it was, where the files of the request can be removed
-- and its source had no cleared receipt before.
pub release-atomic :
    (w : World) (owner id : Text) (s : Store) {s' : Store} {t : Task} {e : Error}
    → find_task_locked s.index owner id ≡ some t
    → lookup t.source_message_key s.index.cleared ≡ none
    → w.removable id ≡ true
    → release w owner id s ≡ (s', err e)
    → s' ≡ s
unfolding release find_task_locked find_task
release-atomic w owner id s {s'} {t} {e} found absent removable h =
    elim (Option-cases (lookup owner s.index.owners)) [
      | inl n ↦ absurd (ground arith)
      | inr (tasks, there) ↦
          let left : List Task = filter (λ x. not (text_eq x.id id)) tasks in
          ground (
            arith,
            restore_released owner t.source_message_key tasks left (cleared_receipt owner id t) s
                there absent,
          )
    ]

-- ===== src/Request/Admission/Source.antt =====
-- core/request/store.go and rejection.go: the source of a start, and what a refusal leaves.
use codex_link_clawbot.Prelude.{
  Bool-cases, Option-cases, ok, ◌≡◌, inl, inr, Bool, true, false, none, some, arith,
}
use codex_link_clawbot.Text.{Text, text_eq_refl}
use codex_link_clawbot.Map.{Map, contains}
use codex_link_clawbot.Request.Types.{Task, StartInput, Error, session_busy}
use codex_link_clawbot.Request.Index.{find_by_source_locked}
use codex_link_clawbot.Request.Storage.{Store, World}
use codex_link_clawbot.Request.Admission.{new_task, admit, refuse_busy, start_swept, Staging}
use codex_link_clawbot.Request.Admission.Append.{find_source_in-append_task}
use codex_link_clawbot.Request.Admission.Session.{admit-new, start_swept-admitted}

-- A source that a new task has taken is found on it.
admit-finds :
    (w : World) (st : Staging) (input : StartInput) (s : Store) {s' : Store} {t : Task}
    → find_by_source_locked s.index input.source_message_key ≡ none
    → admit w st input s ≡ (s', ok (t, false))
    → find_by_source_locked s'.index input.source_message_key ≡ some t
unfolding find_by_source_locked new_task
admit-finds w st input s {s'} {t} fresh_source h =
    let (id, same, index, b) = admit-new w st input s h in
    ground (
      arith,
      same,
      index,
      text_eq_refl input.source_message_key,
      find_source_in-append_task input.source_message_key t.owner_id t s.index.owners fresh_source,
    )

-- Past the sweep, the source of a task that a start returns is found on that task.
pub start_swept-finds :
    (w : World) (st : Staging) (input : StartInput) (s : Store) {s' : Store} {t : Task} {b : Bool}
    → start_swept w st input s ≡ (s', ok (t, b))
    → find_by_source_locked s'.index input.source_message_key ≡ some t
unfolding start_swept refuse_busy
start_swept-finds w st input s {s'} {t} {b} h = elim (Bool-cases b) [
  | inl old ↦ elim (Option-cases (find_by_source_locked s.index input.source_message_key)) [
    | inl n ↦ absurd (ground (arith, admit-new w st input s {s' = s'} {t = t} {b = b}))
    | inr (x, e) ↦ ground arith
  ]
  | inr new ↦
      let started : start_swept w st input s ≡ (s', ok (t, false)) = ground arith in
      let (fresh_source, free, room, input_room, admitted) =
        start_swept-admitted w st input s started in
      ground (arith, admit-finds w st input s fresh_source admitted)
]

-- What a start that fails leaves: the store as it was, or the receipt of a source that found its
-- session busy, with the tasks and the cleared sources as they were.
pub data Refusal (s s' : Store) (source : Text) (e : Error) : Type 0 where
  unchanged : s' ≡ s → Refusal s s' source e
  receipt :
      e ≡ session_busy
      → contains source s'.index.rejected ≡ true
      → s'.index.owners ≡ s.index.owners
      → s'.index.cleared ≡ s.index.cleared
      → Refusal s s' source e

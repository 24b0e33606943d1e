-- ===== src/Request/Admission/Session.antt =====
-- core/request/store.go: the session and the room of a new task.
use codex_link_clawbot.Prelude.{
  if◌then◌else◌, Option-cases, Fallible-cases, ok, sum_of, ℕ, ◌+◌, ◌≤◌, ◌≡◌, refl, inl, inr, Bool,
  false, ◌&&◌, not, none, List, [], ◌∷◌, arith,
}
use codex_link_clawbot.Text.{Text, text_eq, text_eq_refl}
use codex_link_clawbot.Request.Types.{
  state_eq, terminal, max_result_store_bytes, max_input_store_bytes, Task, Index, StartInput,
}
use codex_link_clawbot.Request.Index.{task_session, find_by_source_locked}
use codex_link_clawbot.Request.Storage.{save_locked, Store, World}
use codex_link_clawbot.Request.Retention.{
  has_payload, all_tasks, payload_bytes_locked, max_result_reservation, result_reservation,
  result_bytes_locked, input_payload_bytes,
}
use codex_link_clawbot.Request.Lifecycle.Commit.{save_locked-index}
use codex_link_clawbot.Request.Admission.{
  save_input, first_in_session, session_holder, input_session, new_task, with_new_task, admit,
  refuse_busy, start_swept, Staging,
}
use codex_link_clawbot.Request.Admission.Append.{sum_of-append_task}

-- Whether a task holds the session of a key, as a number.
abbrev pub in_session : Text → Task → ℕ
in_session key t = if not (terminal t.state) && text_eq (task_session t) key then 1 else 0

-- The active tasks of a session.
unfoldable pub holders : Text → Index → ℕ
unfolding all_tasks
holders key i = sum_of (in_session key) (all_tasks i.owners)

first_in_session-none :
    (key : Text) (ts : List Task) → first_in_session key ts ≡ none → sum_of (in_session key) ts ≡ 0
first_in_session-none key [] h = refl
first_in_session-none key (t ∷ ts) h = ground (arith, first_in_session-none key ts)

session_holder-none :
    (key : Text) (i : Index) → session_holder key i.owners ≡ none → holders key i ≡ 0
unfolding session_holder holders
session_holder-none key i h = first_in_session-none key (all_tasks i.owners) h

-- What `admit` returns, when it admits: the new task, which the index now has.
pub admit-new :
    (w : World) (st : Staging) (input : StartInput) (s : Store) {s' : Store} {t : Task} {b : Bool}
    → admit w st input s ≡ (s', ok (t, b))
    → (id : Text) × (t ≡ new_task w input id s.index.next_order)
      × (s'.index ≡ (with_new_task t s).index)
      × (b ≡ false)
unfolding admit
admit-new w st input s {s'} {t} {b} h = elim (Option-cases st.new_id) [
  | inl n ↦ absurd (ground arith)
  | inr (id, some_id) ↦ elim (Fallible-cases st.staged) [
    | inr (e, bad) ↦ absurd (ground arith)
    | inl (payload, staged) ↦
        let new : Task = new_task w input id s.index.next_order in
        elim (Fallible-cases
          (save_locked w.commit (save_input w.lib id payload) (with_new_task new s))) [
            | inr (e, bad) ↦ absurd (ground arith)
            | inl (saved, save) ↦
                let same : t ≡ new = ground arith in
                (
                  id,
                  same,
                  ground (
                    arith,
                    save_locked-index w.commit (save_input w.lib id payload) (with_new_task new s)
                        save,
                  ),
                  ground arith,
                )
          ]
  ]
]

-- What `Start` has seen when it admits a new task.
pub start_swept-admitted :
    (w : World) (st : Staging) (input : StartInput) (s : Store) {s' : Store} {t : Task}
    → start_swept w st input s ≡ (s', ok (t, false))
    → (find_by_source_locked s.index input.source_message_key ≡ none)
      × (session_holder (input_session input) s.index.owners ≡ none)
      × (result_bytes_locked w.now s.index + max_result_reservation ≤ max_result_store_bytes)
      × (payload_bytes_locked w.now s.index + input_payload_bytes input ≤ max_input_store_bytes)
      × (admit w st input s ≡ (s', ok (t, false)))
unfolding start_swept refuse_busy
start_swept-admitted w st input s h =
    (ground arith, ground arith, ground arith, ground arith, ground arith)

new_task-in_session :
    (w : World) (input : StartInput) (id : Text) (order : ℕ)
    → in_session (input_session input) (new_task w input id order) ≡ 1
unfolding new_task terminal state_eq
new_task-in_session w input id order = ground (arith, text_eq_refl (input_session input))

-- When `Start` admits a new task, no active task held the input's session before, and exactly one
-- does afterwards.
pub start_swept-holders :
    (w : World) (st : Staging) (input : StartInput) (s : Store) {s' : Store} {t : Task}
    → start_swept w st input s ≡ (s', ok (t, false))
    → (holders (input_session input) s.index ≡ 0) × (holders (input_session input) s'.index ≡ 1)
unfolding holders
start_swept-holders w st input s {s'} {t} h =
    let (fresh_source, free, room, input_room, admitted) = start_swept-admitted w st input s h in
    let (id, same, index, b) = admit-new w st input s admitted in
    let before : holders (input_session input) s.index ≡ 0 =
      session_holder-none (input_session input) s.index free in
    (
      before,
      ground (
        arith,
        before,
        same,
        index,
        new_task-in_session w input id s.index.next_order,
        sum_of-append_task (in_session (input_session input)) t.owner_id t s.index.owners,
      ),
    )

new_task-room :
    (w : World) (input : StartInput) (id : Text) (order : ℕ)
    → (result_reservation w.now (new_task w input id order) ≡ max_result_reservation)
      × ((new_task w input id order).payload_bytes ≡ input_payload_bytes input)
unfolding new_task result_reservation terminal state_eq
new_task-room w input id order = (ground arith, ground arith)

-- When `Start` admits a new task, the results that are kept or reserved and the inputs that are
-- kept, the new task's included, stay within the store's two budgets.
pub start_swept-room :
    (w : World) (st : Staging) (input : StartInput) (s : Store) {s' : Store} {t : Task}
    → start_swept w st input s ≡ (s', ok (t, false))
    → (result_bytes_locked w.now s'.index ≤ max_result_store_bytes)
      × (payload_bytes_locked w.now s'.index ≤ max_input_store_bytes)
unfolding result_bytes_locked payload_bytes_locked
start_swept-room w st input s {s'} {t} h =
    let (fresh_source, free, room, input_room, admitted) = start_swept-admitted w st input s h in
    let (id, same, index, b) = admit-new w st input s admitted in
    (
      ground (
        arith,
        room,
        same,
        index,
        new_task-room w input id s.index.next_order,
        sum_of-append_task (result_reservation w.now) t.owner_id t s.index.owners,
      ),
      ground (
        arith,
        input_room,
        same,
        index,
        new_task-room w input id s.index.next_order,
        sum_of-append_task (λ x. if has_payload x w.now then x.payload_bytes else 0) t.owner_id t
            s.index.owners,
      ),
    )

-- ===== src/Request/Admission.antt =====
-- core/request/store.go and rejection.go: the start of a request, and the receipt of a refusal.
-- The new id and the staged payload (rand.Read, the files below the task's directory) come from
-- outside.
pub mod Append
pub mod Session
pub mod Source
pub mod Once
pub mod Unique
use codex_link_clawbot.Prelude.{
  ltb, leb, ◌==◌, if◌then◌else◌, ◌>>=◌, ◌>>◌, Fallible, ok, err, length, ℕ, ◌+◌, Bool, true, false,
  ◌&&◌, not, Option, none, some, List, [], ◌∷◌, ◌++◌,
}
use codex_link_clawbot.Text.{Text, text, text_eq, trim_space}
use codex_link_clawbot.Map.{Map, lookup, insert, delete, contains}
use codex_link_clawbot.Request.Types.{
  terminal, max_records_per_owner, max_result_store_bytes, max_input_store_bytes, running, Task,
  Rejection, Request, StartInput, Error, capacity, session_busy, already_rejected, already_cleared,
  id_failed,
}
use codex_link_clawbot.Request.Valid.{validate_start_input, validate_request, Libraries}
use codex_link_clawbot.Request.Index.{session_key, task_session, tasks_of, find_by_source_locked}
use codex_link_clawbot.Request.Storage.{Extra, no_extra, save_locked, Store, World}
use codex_link_clawbot.Request.Retention.{
  all_tasks, payload_bytes_locked, max_result_reservation, result_bytes_locked, input_payload_bytes,
  fresh, cleanup,
}

pub record Staging : Type 0 where
  pub new_id : Option Text
  pub staged : Fallible Error Request

-- `saveInput`
unfoldable pub save_input : Libraries → Text → Request → Extra
save_input lib id r t = do validate_request lib r; ok (record t { inputs = insert id r t.inputs })

-- The trims that `Start` makes first.
unfoldable pub trim_input : StartInput → StartInput
trim_input input = record input {
  source_message_key = trim_space input.source_message_key;
  owner_id = trim_space input.owner_id;
  project_id = trim_space input.project_id;
  thread_id = trim_space input.thread_id;
  summary = trim_space input.summary;
  retry_of = trim_space input.retry_of;
}

abbrev pub with_rejected : Map Rejection → Store → Store
with_rejected rejected s = record s { index = record (s.index) { rejected = rejected } }

-- `rejectLocked`, and `Reject` under the lock.
unfoldable pub reject_locked : World → Rejection → Store → Store × Fallible Error (Unit {0})
unfolding contains
reject_locked w r s =
    let kept = fresh (λ (x : Rejection). x.at) w.now s.index.rejected in
    let refused = with_rejected (insert r.source (record r { at = w.now }) kept) s in
    if contains r.source s.index.rejected
    then (s, ok tt)
    else elim (save_locked w.commit no_extra refused) [
      | ok saved ↦ (saved, ok tt)
      | err e ↦ (with_rejected s.index.rejected refused, err e)
    ]

abbrev pub first_in_session : Text → List Task → Option Task
first_in_session key [] = none
first_in_session key (t ∷ ts) =
    if not (terminal t.state) && text_eq (task_session t) key
    then some t
    else first_in_session key ts

-- The task that holds the session of an input, over all owners.
unfoldable pub session_holder : Text → Map (List Task) → Option Task
unfolding all_tasks
session_holder key owners = first_in_session key (all_tasks owners)

abbrev pub input_session : StartInput → Text
input_session input = session_key input.owner_id input.target_id input.thread_id

-- The task that `Start` builds.
unfoldable pub new_task : World → StartInput → Text → ℕ → Task
unfolding input_payload_bytes
new_task w input id order =
    let now = if w.now == 0 then 1 else w.now in
    let waiting = ltb 0 (length input.source_data) in
    record {
      input_pending = waiting;
      archive_failed = false;
      turn_id = [];
      target_id = input.target_id;
      execution_completed_at = 0;
      result_expires_at = 0;
      result_bytes = 0;
      id = id;
      source_message_key = input.source_message_key;
      owner_id = input.owner_id;
      project_id = input.project_id;
      thread_id = input.thread_id;
      summary = input.summary;
      state = running;
      stage = if waiting then text "正在接收附件，可打断" else text "准备执行";
      reason = [];
      response_mode = input.response_mode;
      visual_style = input.visual_style;
      order = order;
      created_at = now;
      started_at = now;
      finished_at = 0;
      payload_expires_at = 0;
      retry_of = input.retry_of;
      image_count = length input.images;
      file_count = length input.files;
      payload_bytes = input_payload_bytes input;
      input_tokens = 0;
      output_tokens = 0;
      total_tokens = 0;
    }

-- `Owners[owner] = append(…)`, `NextOrder++`.
abbrev pub with_new_task : Task → Store → Store
with_new_task t s = record s {
  index = record (s.index) {
    owners = insert t.owner_id (tasks_of t.owner_id s.index ++ (t ∷ [])) s.index.owners;
    next_order = s.index.next_order + 1;
  };
}

-- The old owner (or its absence) and the old order again.
abbrev pub without_new_task : Text → Option (List Task) → ℕ → Store → Store
without_new_task owner previous order s = record s {
  index = record (s.index) {
    owners = elim previous [
      | some tasks ↦ insert owner tasks s.index.owners
      | none ↦ delete owner s.index.owners
    ];
    next_order = order;
  };
}

-- The end of `Start`: the payload is staged and the record is saved with it.
unfoldable pub admit : World → Staging → StartInput → Store → Store × Fallible Error (Task × Bool)
unfolding new_task save_input
admit w st input s = elim st.new_id [
  | none ↦ (s, err id_failed)
  | some id ↦ elim st.staged [
    | err e ↦ (s, err e)
    | ok payload ↦
        let t = new_task w input id s.index.next_order in
        let admitted = with_new_task t s in
        elim (save_locked w.commit (save_input w.lib id payload) admitted) [
          | ok saved ↦ (saved, ok (t, false))
          | err e ↦ (
            without_new_task input.owner_id (lookup input.owner_id s.index.owners)
                s.index.next_order admitted,
            err e,
          )
        ]
  ]
]

-- The session is taken: the refusal is saved before it is returned.
unfoldable pub refuse_busy :
    World → StartInput → Task → Store → Store × Fallible Error (Task × Bool)
unfolding reject_locked
refuse_busy w input holder s =
    let receipt : Rejection = record {
      source = input.source_message_key;
      owner_id = input.owner_id;
      target_id = input.target_id;
      thread_id = holder.thread_id;
      task_id = holder.id;
      turn_id = [];
      at = 0;
    } in
    let (s', done) = reject_locked w receipt s in
    elim done [ err e ↦ (s', err e) | ok u ↦ (s', err session_busy) ]

-- `Start` behind its sweep.
unfoldable pub start_swept :
    World → Staging → StartInput → Store → Store × Fallible Error (Task × Bool)
unfolding admit refuse_busy session_holder find_by_source_locked contains payload_bytes_locked
    result_bytes_locked input_payload_bytes
start_swept w st input s = elim (find_by_source_locked s.index input.source_message_key) [
  | some existing ↦ (s, ok (existing, true))
  | none ↦
      if contains input.source_message_key s.index.cleared
      then (s, err already_cleared)
      else if leb max_records_per_owner (length (tasks_of input.owner_id s.index))
      then (s, err capacity)
      else if contains input.source_message_key s.index.rejected
      then (s, err already_rejected)
      else elim (session_holder (input_session input) s.index.owners) [
        | some holder ↦ refuse_busy w input holder s
        | none ↦
            if ltb max_result_store_bytes
              (result_bytes_locked w.now s.index + max_result_reservation)
            then (s, err capacity)
            else if ltb max_input_store_bytes
                (payload_bytes_locked w.now s.index + input_payload_bytes input)
            then (s, err capacity)
            else admit w st input s
      ]
]

-- `Start`
unfoldable pub start : World → Staging → StartInput → Store → Store × Fallible Error (Task × Bool)
unfolding trim_input validate_start_input cleanup start_swept
start w st raw s =
    let input = trim_input raw in
    elim (validate_start_input w.lib input) [
      | err e ↦ (s, err e)
      | ok u ↦
          let (swept, done) = cleanup w s in
          elim done [ err e ↦ (swept, err e) | ok v ↦ start_swept w st input swept ]
    ]

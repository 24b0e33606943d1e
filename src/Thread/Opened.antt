-- ===== src/Thread/Opened.antt =====
-- core/thread/manager.go: the threads that an opening starts.
use codex_link_clawbot.Prelude.{
  Bool-cases, Option-cases, bool_eq, Fallible-cases, Fallible, ok, err, all, any, ◌≡◌, inl, inr,
  Bool, true, false, ◌&&◌, ◌||◌, List, arith,
}
use codex_link_clawbot.Text.{Text, text_eq, text_eq_refl, is_empty, trim_space}
use codex_link_clawbot.Workspace.{contains_path, Definition, FileSystem}
use codex_link_clawbot.Thread.{
  read_available_thread, use_global_thread, normalize_name, resume_available, start_named,
  open_task_thread, ThreadInfo, ThreadError, ThreadClient, ThreadCall, naming_failed, resumes,
  starts, archives, invalidates,
}
use codex_link_clawbot.Thread.Scanned.{read_available_thread-id}

-- Whether a call asks for the archiving of a thread and has an answer.
abbrev pub asked_back : Text → Bool → ThreadCall → Bool
asked_back id answer (archives other_id done) = text_eq other_id id && bool_eq done answer
asked_back id answer (resumes other_id) = false
asked_back id answer (starts t) = false
asked_back id answer invalidates = false

abbrev pub is_returned : Text → Fallible ThreadError ThreadInfo → Bool
is_returned id (ok t) = text_eq t.id id
is_returned id (err e) = false

-- A thread that was started is the one returned, or Codex was asked to archive it and gave its
-- answer.
abbrev pub is_accounted :
    ThreadClient → List ThreadCall → Fallible ThreadError ThreadInfo → ThreadCall → Bool
is_accounted client calls result (starts t) =
    is_returned t.id result || any (asked_back t.id (client.archive_thread t.id)) calls
is_accounted client calls result (resumes id) = true
is_accounted client calls result (archives id done) = true
is_accounted client calls result invalidates = true

start_named-accounted :
    (client : ThreadClient) (root name : Text)
    → all
        (is_accounted client (start_named client root name).0 (start_named client root name).1)
        (start_named client root name).0
      ≡ true
unfolding start_named
start_named-accounted client root name = elim (Option-cases (client.start_thread root)) [
  | inl n ↦ ground (arith, n)
  | inr (t, made) ↦ elim (Bool-cases (is_empty name)) [
    | inl unnamed ↦ ground (arith, made, unnamed, text_eq_refl t.id)
    | inr named ↦ elim (Bool-cases (client.set_thread_name t.id name)) [
      | inl good ↦ ground (arith, made, named, good, text_eq_refl t.id)
      | inr bad ↦ elim (Bool-cases (client.archive_thread t.id)) [
        | inl gone ↦ ground (arith, made, named, bad, gone, text_eq_refl t.id)
        | inr kept ↦ ground (arith, made, named, bad, kept, text_eq_refl t.id)
      ]
    ]
  ]
]

resume_available-accounted :
    (fs : FileSystem) (client : ThreadClient) (root id : Text)
    → all
        (is_accounted client
          (resume_available fs client root id).0
          (resume_available fs client root id).1)
        (resume_available fs client root id).0
      ≡ true
unfolding resume_available
resume_available-accounted fs client root id =
    elim (Fallible-cases (read_available_thread client id)) [
      | inr (e, bad) ↦ ground (arith, bad)
      | inl (t, there) ↦ elim (Option-cases (client.resume_thread id root)) [
        | inl n ↦ ground (arith, there, n)
        | inr (u, resumed) ↦ ground (arith, there, resumed)
      ]
    ]

-- Whatever Codex answers, a thread that an opening starts is the one that it returns, or Codex has
-- been asked to archive it.
pub open_task_thread-accounted :
    (fs : FileSystem) (client : ThreadClient) (owner : Text) (d : Definition) (id suggested : Text)
    → all
        (is_accounted client
          (open_task_thread fs client owner d id suggested).0
          (open_task_thread fs client owner d id suggested).1)
        (open_task_thread fs client owner d id suggested).0
      ≡ true
unfolding open_task_thread
open_task_thread-accounted fs client owner d id suggested =
    let root : Text = trim_space d.root in
    elim (Fallible-cases (normalize_name suggested)) [
      | inr (e, bad) ↦
          ground (arith, bad, resume_available-accounted fs client root (trim_space id))
      | inl (name, good) ↦ ground (
        arith,
        good,
        resume_available-accounted fs client root (trim_space id),
        start_named-accounted client root name,
      )
    ]

-- Whether a call is no archiving, where the opening did not fail to name its thread.
abbrev pub is_quiet : Fallible ThreadError ThreadInfo → ThreadCall → Bool
is_quiet (err naming_failed) call = true
is_quiet result (archives id done) = false
is_quiet result (resumes id) = true
is_quiet result (starts t) = true
is_quiet result invalidates = true

start_named-quiet :
    (client : ThreadClient) (root name : Text)
    → all (is_quiet (start_named client root name).1) (start_named client root name).0 ≡ true
unfolding start_named
start_named-quiet client root name = elim (Option-cases (client.start_thread root)) [
  | inl n ↦ ground (arith, n)
  | inr (t, made) ↦ elim (Bool-cases (is_empty name)) [
    | inl unnamed ↦ ground (arith, made, unnamed)
    | inr named ↦ elim (Bool-cases (client.set_thread_name t.id name)) [
      | inl good ↦ ground (arith, made, named, good)
      | inr bad ↦ ground (arith, made, named, bad)
    ]
  ]
]

resume_available-quiet :
    (fs : FileSystem) (client : ThreadClient) (root id : Text)
    → all (is_quiet (resume_available fs client root id).1) (resume_available fs client root id).0
      ≡ true
unfolding resume_available
resume_available-quiet fs client root id = elim (Fallible-cases (read_available_thread client id)) [
  | inr (e, bad) ↦ ground (arith, bad)
  | inl (t, there) ↦ elim (Option-cases (client.resume_thread id root)) [
    | inl n ↦ ground (arith, there, n)
    | inr (u, resumed) ↦ ground (arith, there, resumed)
  ]
]

-- An opening asks to archive nothing, unless it fails to name the thread that it started.
pub open_task_thread-quiet :
    (fs : FileSystem) (client : ThreadClient) (owner : Text) (d : Definition) (id suggested : Text)
    → all
        (is_quiet (open_task_thread fs client owner d id suggested).1)
        (open_task_thread fs client owner d id suggested).0
      ≡ true
unfolding open_task_thread
open_task_thread-quiet fs client owner d id suggested =
    let root : Text = trim_space d.root in
    elim (Fallible-cases (normalize_name suggested)) [
      | inr (e, bad) ↦ ground (arith, bad, resume_available-quiet fs client root (trim_space id))
      | inl (name, good) ↦ ground (
        arith,
        good,
        resume_available-quiet fs client root (trim_space id),
        start_named-quiet client root name,
      )
    ]

-- A thread that is opened to be used stands in the workspace and has the id that was asked for.
pub use_global_thread-inside :
    (fs : FileSystem) (client : ThreadClient) (owner : Text) (d : Definition) (id : Text)
    {t : ThreadInfo}
    → use_global_thread fs client owner d id ≡ ok t
    → (t.id ≡ trim_space id) × (contains_path fs t.cwd d.root ≡ true)
unfolding use_global_thread
use_global_thread-inside fs client owner d id {t} h =
    elim (Fallible-cases (read_available_thread client (trim_space id))) [
      | inr (e, bad) ↦ absurd (ground (arith, bad))
      | inl (u, there) ↦
          let same : u ≡ t = ground (arith, there) in
          (
            ground (arith, same, read_available_thread-id client (trim_space id) there),
            ground (arith, same, there),
          )
    ]

-- ===== src/Conversation/Undone.antt =====
-- core/conversation/service.go: what a creation that fails leaves with Codex.
use codex_link_clawbot.Prelude.{
  Bool-cases, Option-cases, Fallible-cases, Fallible, ok, err, all, any, any-append, ◌≡◌, refl,
  subst, inl, inr, Bool, true, ◌&&◌, List, [], ◌∷◌, ◌++◌, arith,
}
use codex_link_clawbot.Text.{Text, text_eq, text_eq_iff, text_eq_refl}
use codex_link_clawbot.Workspace.{get_workspace}
use codex_link_clawbot.Thread.{
  open_task_thread, ThreadInfo, ThreadError, ThreadClient, ThreadCall, naming_failed, resumes,
  starts, archives, invalidates,
}
use codex_link_clawbot.Thread.Opened.{
  asked_back, is_accounted, open_task_thread-accounted, is_quiet, open_task_thread-quiet,
}
use codex_link_clawbot.Target.{
  snapshot_target, select_thread, Intent, TargetError, Targets, Selection,
}
use codex_link_clawbot.Conversation.{
  select_created, create_conversation, ConversationError, of_thread, with_cleanup_error, Service,
}

-- Codex was asked to archive a thread that was started, and gave its answer.
abbrev pub is_undone : ThreadClient → List ThreadCall → ThreadCall → Bool
is_undone client calls (starts t) = any (asked_back t.id (client.archive_thread t.id)) calls
is_undone client calls (resumes id) = true
is_undone client calls (archives id done) = true
is_undone client calls invalidates = true

-- Whether an error tells of an archiving that Codex has refused. It does not where Codex has also
-- refused to name the thread.
abbrev pub is_told : ConversationError → ThreadCall → Bool
is_told (with_cleanup_error why) call = true
is_told (of_thread naming_failed) call = true
is_told why (archives id done) = done
is_told why (starts t) = true
is_told why (resumes id) = true
is_told why invalidates = true

quiet-told_err :
    (why : ThreadError) (calls : List ThreadCall)
    → all (is_quiet (err why)) calls ≡ true
    → all (is_told (of_thread why)) calls ≡ true
quiet-told_err why [] h = refl
quiet-told_err why (c ∷ calls) h = ground (arith, quiet-told_err why calls)

quiet-told_ok :
    (info : ThreadInfo) (why : ConversationError) (calls : List ThreadCall)
    → all (is_quiet (ok info)) calls ≡ true
    → all (is_told why) calls ≡ true
quiet-told_ok info why [] h = refl
quiet-told_ok info why (c ∷ calls) h = ground (arith, quiet-told_ok info why calls)

accounted-undone_err :
    (client : ThreadClient) (calls todo : List ThreadCall) (e : ThreadError)
    → all (is_accounted client calls (err e)) todo ≡ true
    → all (is_undone client calls) todo ≡ true
accounted-undone_err client calls [] e h = refl
accounted-undone_err client calls (starts t ∷ todo) e h =
    ground (arith, accounted-undone_err client calls todo e)
accounted-undone_err client calls (resumes id ∷ todo) e h =
    accounted-undone_err client calls todo e h
accounted-undone_err client calls (archives id done ∷ todo) e h =
    accounted-undone_err client calls todo e h
accounted-undone_err client calls (invalidates ∷ todo) e h =
    accounted-undone_err client calls todo e h

-- The calls after the thread of an id has been given back.
abbrev pub undoing : ThreadClient → List ThreadCall → Text → List ThreadCall
undoing client calls id = calls ++ (archives id (client.archive_thread id) ∷ invalidates ∷ [])

same_thread-undone :
    (client : ThreadClient) (id other_id : Text)
    → text_eq id other_id ≡ true
    → asked_back other_id (client.archive_thread other_id) (archives id (client.archive_thread id))
      ≡ true
same_thread-undone client id other_id h =
    let same : id ≡ other_id = ground (arith, text_eq_iff id other_id) in
    subst
      (λ (x : Text).
        (asked_back x (client.archive_thread x) (archives id (client.archive_thread id)) ≡ true))
      same
      (elim (Bool-cases (client.archive_thread id)) [
        | inl gone ↦ ground (arith, gone, text_eq_refl id)
        | inr kept ↦ ground (arith, kept, text_eq_refl id)
      ])

accounted-undone_ok :
    (client : ThreadClient) (calls todo : List ThreadCall) (info : ThreadInfo)
    → all (is_accounted client calls (ok info)) todo ≡ true
    → all (is_undone client (undoing client calls info.id)) todo ≡ true
accounted-undone_ok client calls [] info h = refl
accounted-undone_ok client calls (starts t ∷ todo) info h = ground (
  arith,
  any-append (asked_back t.id (client.archive_thread t.id)) calls
      (archives info.id (client.archive_thread info.id) ∷ invalidates ∷ []),
  same_thread-undone client info.id t.id,
  accounted-undone_ok client calls todo info,
)
accounted-undone_ok client calls (resumes id ∷ todo) info h =
    accounted-undone_ok client calls todo info h
accounted-undone_ok client calls (archives id done ∷ todo) info h =
    accounted-undone_ok client calls todo info h
accounted-undone_ok client calls (invalidates ∷ todo) info h =
    accounted-undone_ok client calls todo info h

all-append :
    (p : ThreadCall → Bool) (xs ys : List ThreadCall) → all p (xs ++ ys) ≡ (all p xs && all p ys)
all-append p [] ys = refl
all-append p (x ∷ xs) ys = ground (arith, all-append p xs ys)

select_created-undone :
    (v : Service) (owner workspace : Text) (calls : List ThreadCall) (info : ThreadInfo)
    (expected : Selection) (later : Targets) {e : ConversationError}
    → all (is_accounted v.client calls (ok info)) calls ≡ true
    → (select_created v owner workspace calls info expected later).result ≡ err e
    → all
        (is_undone v.client (select_created v owner workspace calls info expected later).calls)
        (select_created v owner workspace calls info expected later).calls
      ≡ true
unfolding select_created
select_created-undone v owner workspace calls info expected later {e} accounted h =
    let selected : Targets × Fallible TargetError Intent =
      select_thread v.target_world owner workspace info.id expected later in
    let undone = accounted-undone_ok v.client calls calls info accounted in
    let whole =
      all-append (is_undone v.client (undoing v.client calls info.id)) calls
        (archives info.id (v.client.archive_thread info.id) ∷ invalidates ∷ []) in
    elim (Bool-cases v.is_live) [
      | inr dead ↦ ground (arith, dead, undone, whole)
      | inl live ↦ elim (Fallible-cases selected.1) [
        | inl (i, good) ↦ absurd (ground (arith, live, good))
        | inr (why, bad) ↦ ground (arith, live, bad, undone, whole)
      ]
    ]

create_conversation-asked :
    (v : Service) (owner workspace name : Text) (start later : Targets) {e : ConversationError}
    → (create_conversation v owner workspace name start later).result ≡ err e
    → all
        (is_undone v.client (create_conversation v owner workspace name start later).calls)
        (create_conversation v owner workspace name start later).calls
      ≡ true
unfolding create_conversation
create_conversation-asked v owner workspace name start later {e} h =
    elim (Option-cases (get_workspace workspace v.workspaces)) [
      | inl n ↦ ground (arith, n)
      | inr (d, there) ↦
          let opened : List ThreadCall × Fallible ThreadError ThreadInfo =
            open_task_thread v.fs v.client owner d [] name in
          let accounted = open_task_thread-accounted v.fs v.client owner d [] name in
          elim (Fallible-cases opened.1) [
            | inr (why, bad) ↦
                let undone : all (is_undone v.client opened.0) opened.0 ≡ true =
                  accounted-undone_err v.client opened.0 opened.0 why
                    (ground (arith, accounted, bad)) in
                ground (arith, there, bad, undone)
            | inl (info, good) ↦
                let all_there : all (is_accounted v.client opened.0 (ok info)) opened.0 ≡ true =
                  ground (arith, accounted, good) in
                let undone =
                  select_created-undone v owner workspace opened.0 info
                    (snapshot_target owner start) later {e = e} all_there
                    (ground (arith, there, good)) in
                ground (arith, there, good, undone)
          ]
    ]

select_created-told :
    (v : Service) (owner workspace : Text) (calls : List ThreadCall) (info : ThreadInfo)
    (expected : Selection) (later : Targets) {e : ConversationError}
    → all (is_quiet (ok info)) calls ≡ true
    → (select_created v owner workspace calls info expected later).result ≡ err e
    → all (is_told e) (select_created v owner workspace calls info expected later).calls ≡ true
unfolding select_created
select_created-told v owner workspace calls info expected later {e} quiet h =
    let selected : Targets × Fallible TargetError Intent =
      select_thread v.target_world owner workspace info.id expected later in
    let archived : Bool = v.client.archive_thread info.id in
    let told = quiet-told_ok info e calls quiet in
    let whole = all-append (is_told e) calls (archives info.id archived ∷ invalidates ∷ []) in
    elim (Bool-cases archived) [
      | inl gone ↦ elim (Bool-cases v.is_live) [
        | inr dead ↦ ground (arith, dead, gone, told, whole)
        | inl live ↦ elim (Fallible-cases selected.1) [
          | inl (i, good) ↦ absurd (ground (arith, live, good))
          | inr (why, bad) ↦ ground (arith, live, bad, gone, told, whole)
        ]
      ]
      | inr left ↦ elim (Bool-cases v.is_live) [
        | inr dead ↦ ground (arith, dead, left, told, whole)
        | inl live ↦ elim (Fallible-cases selected.1) [
          | inl (i, good) ↦ absurd (ground (arith, live, good))
          | inr (why, bad) ↦ ground (arith, live, bad, left, told, whole)
        ]
      ]
    ]

create_conversation-told :
    (v : Service) (owner workspace name : Text) (start later : Targets) {e : ConversationError}
    → (create_conversation v owner workspace name start later).result ≡ err e
    → all (is_told e) (create_conversation v owner workspace name start later).calls ≡ true
unfolding create_conversation
create_conversation-told v owner workspace name start later {e} h =
    elim (Option-cases (get_workspace workspace v.workspaces)) [
      | inl n ↦ ground (arith, n)
      | inr (d, there) ↦
          let opened : List ThreadCall × Fallible ThreadError ThreadInfo =
            open_task_thread v.fs v.client owner d [] name in
          let quiet = open_task_thread-quiet v.fs v.client owner d [] name in
          elim (Fallible-cases opened.1) [
            | inr (why, bad) ↦
                let told : all (is_told (of_thread why)) opened.0 ≡ true =
                  quiet-told_err why opened.0 (ground (arith, quiet, bad)) in
                ground (arith, there, bad, told)
            | inl (info, good) ↦
                let still : all (is_quiet (ok info)) opened.0 ≡ true =
                  ground (arith, quiet, good) in
                let told =
                  select_created-told v owner workspace opened.0 info (snapshot_target owner start)
                    later {e = e} still (ground (arith, there, good)) in
                ground (arith, there, good, told)
          ]
    ]

-- A creation that fails gives back what it started: whatever Codex answers and whatever others make
-- of the targets meanwhile, Codex has been asked to archive every thread that was started, and has
-- given its answer, so no such thread is left where Codex archives it. Where Codex has refused to
-- archive one, the error says so, unless Codex had also refused to name that thread.
pub create_conversation-undone :
    (v : Service) (owner workspace name : Text) (start later : Targets) {e : ConversationError}
    → (create_conversation v owner workspace name start later).result ≡ err e
    → (all
          (is_undone v.client (create_conversation v owner workspace name start later).calls)
          (create_conversation v owner workspace name start later).calls
        ≡ true)
      × (all (is_told e) (create_conversation v owner workspace name start later).calls ≡ true)
create_conversation-undone v owner workspace name start later {e} h = (
  create_conversation-asked v owner workspace name start later h,
  create_conversation-told v owner workspace name start later h,
)

-- ===== src/Conversation.antt =====
-- core/conversation/service.go: the choice of a conversation. What other goroutines make of the
-- targets while Codex answers is an argument.
use codex_link_clawbot.Prelude.{
  ltb, if◌then◌else◌, Fallible, ok, err, Bool, ◌||◌, not, Option, none, some, List, [], ◌∷◌, ◌++◌,
}
use codex_link_clawbot.Text.{Text, text_eq, is_empty, rune_count, trim_space, contains_any}
use codex_link_clawbot.Workspace.{get_workspace, match_workspace, Definition, FileSystem}
use codex_link_clawbot.Thread.{
  max_session_name, use_global_thread, open_task_thread, ThreadInfo, ThreadError, codex_unavailable,
  ThreadClient, ThreadCall, archives, invalidates,
}
use codex_link_clawbot.Target.{
  snapshot_target, select_locked, select_thread, Intent, TargetError, Targets, Selection,
  TargetWorld,
}
pub mod Created
pub mod Undone

pub data ConversationError : Type 0 where
  unknown_workspace context_done not_trusted invalid_name rename_failed : ConversationError
  of_thread : ThreadError → ConversationError
  of_target : TargetError → ConversationError
  with_cleanup_error : ConversationError → ConversationError

-- The dependencies of `Service`, and whether the context is alive after Codex has answered.
pub record Service : Type 0 where
  pub fs : FileSystem
  pub client : ThreadClient
  pub workspaces : List Definition
  pub target_world : TargetWorld
  pub read_thread : Text → Option ThreadInfo
  pub is_live : Bool

-- The targets and what was asked of Codex, after an operation.
pub record Outcome (A : Type 0) : Type 0 where
  pub targets : Targets
  pub calls : List ThreadCall
  pub result : Fallible ConversationError A

abbrev pub fails : {A : Type 0} → Targets → List ThreadCall → ConversationError → Outcome A
fails targets calls why = record { targets = targets; calls = calls; result = err why }

abbrev chosen : List ThreadCall → Targets × Fallible TargetError Intent → Outcome Intent
chosen calls (targets, ok i) = record { targets = targets; calls = calls; result = ok i }
chosen calls (targets, err e) = fails targets calls (of_target e)

-- `Select`, with the targets at its start and when the thread has been read.
unfoldable pub select_conversation :
    Service → Text → Text → Text → Targets → Targets → Outcome Intent
unfolding get_workspace select_locked snapshot_target use_global_thread select_thread is_empty
select_conversation v owner workspace thread start later =
    elim (get_workspace workspace v.workspaces) [
      | none ↦ fails start [] unknown_workspace
      | some d ↦
          if is_empty thread
          then chosen [] (select_locked v.target_world owner workspace [] start)
          else elim (use_global_thread v.fs v.client owner d thread) [
            | err e ↦ fails later [] (of_thread e)
            | ok info ↦
                if v.is_live
                then chosen [] (
                    select_thread v.target_world owner workspace info.id
                      (snapshot_target owner start) later)
                else fails later [] context_done
          ]
    ]

-- `errors.Join(err, cleanupErr)`
abbrev pub join_cleanup : ConversationError → Bool → ConversationError
join_cleanup why archived = if archived then why else with_cleanup_error why

-- The end of `Create`: Codex is asked to archive a thread that cannot be selected.
unfoldable pub select_created :
    Service → Text → Text → List ThreadCall → ThreadInfo → Selection → Targets → Outcome Intent
unfolding select_thread
select_created v owner workspace calls info expected later =
    let archived = v.client.archive_thread info.id in
    let undone = calls ++ (archives info.id archived ∷ invalidates ∷ []) in
    let selected = select_thread v.target_world owner workspace info.id expected later in
    if v.is_live
    then elim selected.1 [
      | ok i ↦ record { targets = selected.0; calls = calls; result = ok i }
      | err e ↦ fails selected.0 undone (join_cleanup (of_target e) archived)
    ]
    else fails later undone (join_cleanup context_done archived)

-- `Create`
unfoldable pub create_conversation :
    Service → Text → Text → Text → Targets → Targets → Outcome Intent
unfolding get_workspace open_task_thread snapshot_target select_created
create_conversation v owner workspace name start later =
    elim (get_workspace workspace v.workspaces) [
      | none ↦ fails start [] unknown_workspace
      | some d ↦
          let opened = open_task_thread v.fs v.client owner d [] name in
          elim opened.1 [
            | err e ↦ fails later opened.0 (of_thread e)
            | ok info ↦
                select_created v owner workspace opened.0 info (snapshot_target owner start) later
          ]
    ]

-- `Trusted`
unfoldable pub trusted : Service → Text → Fallible ConversationError (ThreadInfo × Definition)
unfolding match_workspace is_empty text_eq
trusted v id = elim (v.read_thread id) [
  | none ↦ err (of_thread codex_unavailable)
  | some info ↦ elim (match_workspace v.fs info.cwd v.workspaces) [
    | none ↦ err not_trusted
    | some d ↦ if is_empty id || not (text_eq info.id id) then err not_trusted else ok (info, d)
  ]
]

-- `Rename`, on the checks before Codex is asked.
unfoldable pub rename_conversation :
    Service → Text → Text → List ThreadCall × Fallible ConversationError (Unit {0})
unfolding trusted trim_space is_empty contains_any
rename_conversation v id raw =
    let name = trim_space raw in
    if is_empty name
      || ltb max_session_name (rune_count name)
      || contains_any name (13 ∷ 10 ∷ 0 ∷ [])
    then ([], err invalid_name)
    else elim (trusted v id) [
      | err e ↦ ([], err e)
      | ok t ↦
          if v.client.set_thread_name id name
          then (invalidates ∷ [], ok tt)
          else ([], err rename_failed)
    ]

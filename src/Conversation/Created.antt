-- ===== src/Conversation/Created.antt =====
-- core/conversation/service.go: a creation that finds another choice.
use codex_link_clawbot.Prelude.{
  Bool-cases, ok, err, ℕ, ◌^◌, ◌<◌, ◌≡◌, inl, inr, false, some, List, [], arith,
}
use codex_link_clawbot.Text.{Text, is_empty, trim_space}
use codex_link_clawbot.Workspace.{get_workspace, Definition}
use codex_link_clawbot.Thread.{open_task_thread, ThreadInfo, ThreadCall}
use codex_link_clawbot.Target.{revision_of, snapshot_target, selection_changed, Targets}
use codex_link_clawbot.Target.Moves.{select_thread-stale, Commits}
use codex_link_clawbot.Conversation.{
  join_cleanup, select_created, create_conversation, ConversationError, context_done, of_target,
  Service,
}

select_created-stale :
    (v : Service) (owner workspace : Text) (calls : List ThreadCall) (info : ThreadInfo)
    (start later : Targets) (n : ℕ)
    → revision_of owner start < 2 ^ 64
    → Commits owner start later n
    → 0 < n
    → n < 2 ^ 64
    → is_empty (trim_space info.id) ≡ false
    → ((select_created v owner workspace calls info (snapshot_target owner start) later).targets
        ≡ later)
      × ((e : ConversationError) × ((select_created v owner workspace calls info
              (snapshot_target owner start)
              later).result
            ≡ err e))
unfolding select_created
select_created-stale v owner workspace calls info start later n small run some_move few named =
    let stale =
      select_thread-stale v.target_world owner workspace info.id start later n small run some_move
        few named in
    elim (Bool-cases v.is_live) [
      | inr dead ↦ (
        ground (arith, dead),
        (join_cleanup context_done (v.client.archive_thread info.id), ground (arith, dead)),
      )
      | inl live ↦ (
        ground (arith, live, stale),
        (
          join_cleanup (of_target selection_changed) (v.client.archive_thread info.id),
          ground (arith, live, stale),
        ),
      )
    ]

-- A new session never takes a choice over that was made while it was started: when others have
-- moved the owner's selection meanwhile, by at least one and fewer than 2^64 commits, a creation
-- fails and leaves the targets as the others left them, where Codex gives its threads ids that are
-- not blank.
pub create_conversation-stale :
    (v : Service) (owner workspace name : Text) (start later : Targets) (n : ℕ) {d : Definition}
    {info : ThreadInfo}
    → get_workspace workspace v.workspaces ≡ some d
    → (open_task_thread v.fs v.client owner d [] name).1 ≡ ok info
    → is_empty (trim_space info.id) ≡ false
    → revision_of owner start < 2 ^ 64
    → Commits owner start later n
    → 0 < n
    → n < 2 ^ 64
    → ((create_conversation v owner workspace name start later).targets ≡ later)
      × ((e : ConversationError) × ((create_conversation v owner workspace name start later).result
            ≡ err e))
unfolding create_conversation
create_conversation-stale v owner workspace name start later n {d} {info} there good named small run
      some_move few =
    let calls : List ThreadCall = (open_task_thread v.fs v.client owner d [] name).0 in
    let stale =
      select_created-stale v owner workspace calls info start later n small run some_move few
        named in
    (ground (arith, there, good, stale.0), (stale.1.0, ground (arith, there, good, stale.1.1)))

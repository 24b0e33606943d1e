-- ===== src/Request/Lifecycle/Effect.antt =====
-- core/request/lifecycle.go: what the store answers after a transition or an update.
use codex_link_clawbot.Prelude.{if◌then◌else◌, ◌≡◌, ◌&&◌, some, List, arith}
use codex_link_clawbot.Text.{Text, text_eq, text_eq_iff, trim_space}
use codex_link_clawbot.Map.{lookup, lookup-insert}
use codex_link_clawbot.Request.Types.{Task}
use codex_link_clawbot.Request.Index.{find_task, replace_task, find_task_locked, find}
use codex_link_clawbot.Request.Index.Lookup.{find_task-id, find_task-replace_task}
use codex_link_clawbot.Request.Storage.{Store}
use codex_link_clawbot.Request.Lifecycle.{with_tasks}

-- One task is written and every other lookup answers as before.
pub find-with_tasks :
    (owner id owner' id' : Text) (new old : Task) (tasks : List Task) (s s' : Store)
    → lookup (trim_space owner) s.index.owners ≡ some tasks
    → find_task (trim_space id) tasks ≡ some old
    → new.id ≡ old.id
    → s'.index ≡ (with_tasks (trim_space owner) (replace_task old.id new tasks) s).index
    → find s'.index owner' id' ≡ (
        if text_eq (trim_space owner) (trim_space owner')
          && text_eq (trim_space id) (trim_space id')
        then some new
        else find s.index owner' id')
unfolding find find_task_locked
find-with_tasks owner id owner' id' new old tasks s s' ho ht hn hi =
    let same = find_task-id (trim_space id) tasks ht in
    ground (
      arith,
      same,
      text_eq_iff (trim_space owner) (trim_space owner'),
      lookup-insert (trim_space owner) (trim_space owner') (replace_task old.id new tasks)
          s.index.owners,
      find_task-replace_task old.id (trim_space id') new old tasks,
    )

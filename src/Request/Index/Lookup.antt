-- ===== src/Request/Index/Lookup.antt =====
-- core/request/lifecycle.go: the place that `taskIndex` finds.
use codex_link_clawbot.Prelude.{if◌then◌else◌, ◌≡◌, some, List, [], ◌∷◌, arith}
use codex_link_clawbot.Text.{Text, text_eq, text_eq_iff}
use codex_link_clawbot.Request.Types.{Task}
use codex_link_clawbot.Request.Index.{find_task, replace_task}

pub find_task-id : (id : Text) (ts : List Task) {t : Task} → find_task id ts ≡ some t → t.id ≡ id
unfolding find_task
find_task-id id [] h = cc
find_task-id id (x ∷ ts) {t} h = ground (arith, text_eq_iff x.id id, find_task-id id ts {t = t})

-- After a replacement by a task of the same id every lookup finds the new task in place of the old.
pub find_task-replace_task :
    (id j : Text) (new old : Task) (ts : List Task)
    → find_task id ts ≡ some old
    → new.id ≡ id
    → find_task j (replace_task id new ts) ≡ (if text_eq id j then some new else find_task j ts)
unfolding find_task replace_task
find_task-replace_task id j new old [] h e = cc
find_task-replace_task id j new old (x ∷ ts) h e = ground (
  arith,
  text_eq_iff x.id id,
  text_eq_iff x.id j,
  text_eq_iff id j,
  text_eq_iff new.id j,
  find_task-replace_task id j new old ts,
)

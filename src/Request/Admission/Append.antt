-- ===== src/Request/Admission/Append.antt =====
-- core/request/store.go: a task appended to its owner's list, seen by the totals and the lookups.
use codex_link_clawbot.Prelude.{
  Bool-cases, sum_of, sum_of-append, ℕ, ◌+◌, ◌≡◌, inl, inr, true, none, some, List, [], ◌∷◌, ◌++◌,
  arith,
}
use codex_link_clawbot.Text.{Text, text_eq}
use codex_link_clawbot.Map.{Map, lookup, insert, get_or}
use codex_link_clawbot.Request.Types.{Task}
use codex_link_clawbot.Request.Index.{find_source, find_source_in}
use codex_link_clawbot.Request.Retention.{all_tasks}

-- A total over all tasks grows by the new task's share.
pub sum_of-append_task :
    (f : Task → ℕ) (owner : Text) (t : Task) (m : Map (List Task))
    → sum_of f (all_tasks (insert owner (get_or owner [] m ++ (t ∷ [])) m))
      ≡ sum_of f (all_tasks m) + f t
unfolding all_tasks insert lookup
sum_of-append_task f owner t [] = omega arith
sum_of-append_task f owner t ((o, ts) ∷ m) = elim (Bool-cases (text_eq o owner)) [
  | inl e ↦ ground (
    arith,
    sum_of-append f ts (t ∷ []),
    sum_of-append f ts (all_tasks m),
    sum_of-append f (ts ++ (t ∷ [])) (all_tasks m),
  )
  | inr e ↦ ground (
    arith,
    sum_of-append f ts (all_tasks m),
    sum_of-append f ts (all_tasks (insert owner (get_or owner [] m ++ (t ∷ [])) m)),
    sum_of-append_task f owner t m,
  )
]

find_source-append :
    (source : Text) (t : Task) (ts : List Task)
    → find_source source ts ≡ none
    → text_eq t.source_message_key source ≡ true
    → find_source source (ts ++ (t ∷ [])) ≡ some t
find_source-append source t [] h e = ground arith
find_source-append source t (x ∷ ts) h e = ground (arith, find_source-append source t ts)

-- A source that no task had is found on the new task.
pub find_source_in-append_task :
    (source owner : Text) (t : Task) (m : Map (List Task))
    → find_source_in source m ≡ none
    → text_eq t.source_message_key source ≡ true
    → find_source_in source (insert owner (get_or owner [] m ++ (t ∷ [])) m) ≡ some t
unfolding find_source_in insert lookup
find_source_in-append_task source owner t [] h e = ground arith
find_source_in-append_task source owner t ((o, ts) ∷ m) h e =
    ground (arith, find_source-append source t ts, find_source_in-append_task source owner t m)

-- ===== src/Request/Recovery/Ended.antt =====
-- core/request/lifecycle.go: the tasks after a restart.
use codex_link_clawbot.Prelude.{
  ltb, if◌then◌else◌, Bool-cases, Fallible-cases, Fallible, ok, filter, any, ◌<◌, ◌≡◌, refl, subst,
  ◌⊎◌, inl, inr, Bool, true, false, ◌&&◌, ◌||◌, not, none, List, [], ◌∷◌, arith,
}
use codex_link_clawbot.Text.{Text}
use codex_link_clawbot.Map.{Map, lookup, get_or, HasDistinctKeys}
use codex_link_clawbot.Request.Types.{state_eq, delivering, succeeded, interrupted, Task, Error}
use codex_link_clawbot.Request.Index.{is_active, tasks_of}
use codex_link_clawbot.Request.Storage.{no_extra, Tables, Store, World}
use codex_link_clawbot.Request.Retention.{has_payload, all_tasks, is_history_over, cleanup}
use codex_link_clawbot.Request.Retention.Sweep.{in_history, cleanup-in_history}
use codex_link_clawbot.Request.Lifecycle.Commit.{save_locked-index}
use codex_link_clawbot.Request.Delivery.{load_result}
use codex_link_clawbot.Request.Recovery.{
  recover_receipt, recover_completion, settle_receipt, recover_active, validate_payload_root,
  recover_task, recover_tasks, recover_owners, recover,
}

-- How a recovered active task ends: as a success when its execution is complete, else interrupted.
recover_active-ends :
    (w : World) (tables : Tables) (t : Task) {t' : Task} {tables' : Tables}
    → recover_active w tables t ≡ ok (t', tables')
    → (t'.state ≡ succeeded) ⊎ ((t'.state ≡ interrupted) × (t.execution_completed_at ≡ 0))
unfolding recover_active
recover_active-ends w tables t {t'} {tables'} h = elim (Fallible-cases (load_result w tables t)) [
  | inl (r, loaded) ↦ elim (Fallible-cases (settle_receipt w t.id r tables)) [
    | inl (kept, settled) ↦ inl (ground arith)
    | inr (e, bad) ↦ absurd (ground arith)
  ]
  | inr (e, missing) ↦ elim (Bool-cases (ltb 0 t.execution_completed_at && t.archive_failed)) [
    | inl archived ↦ inl (ground arith)
    | inr none_left ↦
        elim (Bool-cases (ltb 0 t.execution_completed_at || state_eq t.state delivering)) [
          | inl refused ↦ absurd (ground arith)
          | inr running_only ↦ inr (ground arith, ground arith)
        ]
  ]
]

recover_completion_complete :
    (tables : Tables) (t : Task)
    → ltb 0 t.execution_completed_at ≡ true
    → recover_completion tables t ≡ t
unfolding recover_completion
recover_completion_complete tables t h = ground arith

-- What a round of the recovery makes of a task: the parts that the round chains.
recover_task-parts :
    (w : World) (tables : Tables) (t : Task) {t' : Task} {tables' : Tables}
    → recover_task w tables t ≡ ok (t', tables')
    → (noted : Tables) × ((if is_active (recover_completion noted t).state
          then recover_active w noted (recover_completion noted t)
          else ok (recover_completion noted t, noted))
        ≡ ok (t', tables'))
unfolding recover_task
recover_task-parts w tables t {t'} {tables'} h =
    elim (Fallible-cases (recover_receipt w t tables)) [
      | inr (e, bad) ↦ absurd (ground arith)
      | inl (noted, e) ↦
          let known : Task = recover_completion noted t in
          let end : Fallible Error (Task × Tables) =
            if is_active known.state then recover_active w noted known else ok (known, noted) in
          elim (Fallible-cases end) [
            | inr (x, bad) ↦ absurd (ground arith)
            | inl (ended, done) ↦ (
              noted,
              elim (Bool-cases (has_payload ended.0 w.now)) [
                | inr gone ↦ ground arith
                | inl kept ↦ elim (Fallible-cases (validate_payload_root w ended.1 ended.0)) [
                  | inl (u, good) ↦ ground arith
                  | inr (x, bad) ↦ absurd (ground arith)
                ]
              ],
            )
          ]
    ]

recover_task-idle :
    (w : World) (tables : Tables) (t : Task) {t' : Task} {tables' : Tables}
    → recover_task w tables t ≡ ok (t', tables')
    → is_active t'.state ≡ false
unfolding is_active
recover_task-idle w tables t {t'} {tables'} h =
    let (noted, done) = recover_task-parts w tables t h in
    ground (
      arith,
      recover_active-ends w noted (recover_completion noted t) {t' = t'} {tables' = tables'},
    )

-- An active request whose execution was complete before the restart is a success after it, when
-- its recovery ends well: it is neither interrupted nor run again.
pub recover_task_complete :
    (w : World) (tables : Tables) (t : Task) {t' : Task} {tables' : Tables}
    → is_active t.state ≡ true
    → 0 < t.execution_completed_at
    → recover_task w tables t ≡ ok (t', tables')
    → t'.state ≡ succeeded
recover_task_complete w tables t {t'} {tables'} active complete h =
    let (noted, done) = recover_task-parts w tables t h in
    let same : recover_completion noted t ≡ t =
      recover_completion_complete noted t (ground arith) in
    let ended : recover_active w noted t ≡ ok (t', tables') = ground arith in
    ground (arith, recover_active-ends w noted t ended)

-- Whether some task of a list is active.
abbrev pub has_active : List Task → Bool
has_active ts = any (λ t. is_active t.state) ts

recover_tasks-idle :
    (w : World) (tables : Tables) (ts : List Task) {ts' : List Task} {tables' : Tables}
    → recover_tasks w tables ts ≡ ok (ts', tables')
    → has_active ts' ≡ false
unfolding recover_tasks
recover_tasks-idle w tables [] h = ground arith
recover_tasks-idle w tables (t ∷ ts) {ts'} {tables'} h =
    elim (Fallible-cases (recover_task w tables t)) [
      | inr (e, bad) ↦ absurd (ground arith)
      | inl ((t', mid), one) ↦ elim (Fallible-cases (recover_tasks w mid ts)) [
        | inr (e, bad) ↦ absurd (ground arith)
        | inl ((rest, last), more) ↦
            ground (arith, recover_task-idle w tables t one, recover_tasks-idle w mid ts more)
      ]
    ]

-- The owners after the recovery: none is new, and no list has an active task.
record Idle (old new : Map (List Task)) : Type 0 where
  absent : (o : Text) → lookup o old ≡ none → lookup o new ≡ none
  quiet : (o : Text) → has_active (get_or o [] new) ≡ false
  distinct : HasDistinctKeys old → HasDistinctKeys new

recover_owners-Idle :
    (w : World) (tables : Tables) (m : Map (List Task)) {m' : Map (List Task)} {tables' : Tables}
    → recover_owners w tables m ≡ ok (m', tables')
    → Idle m m'
unfolding recover_owners lookup
recover_owners-Idle w tables [] {m'} h =
    let same : [] ≡ m' = ground arith in
    record {
      absent = λ o e. ground arith;
      quiet = λ o. ground arith;
      distinct = λ d. subst (λ (x : Map (List Task)). HasDistinctKeys x) same d;
    }
recover_owners-Idle w tables ((owner, ts) ∷ m) {m'} {tables'} h =
    elim (Fallible-cases (recover_tasks w tables ts)) [
      | inr (e, bad) ↦ absurd (ground arith)
      | inl ((ts', mid), one) ↦ elim (Fallible-cases (recover_owners w mid m)) [
        | inr (e, bad) ↦ absurd (ground arith)
        | inl ((rest, last), more) ↦
            let later : Idle m rest = recover_owners-Idle w mid m more in
            let same : (owner, ts') ∷ rest ≡ m' = ground arith in
            subst (Idle ((owner, ts) ∷ m)) same (record {
              absent = λ o e. ground (arith, later.absent o);
              quiet = λ o. ground (arith, later.quiet o, recover_tasks-idle w tables ts one);
              distinct = λ d. (later.absent owner d.0, later.distinct d.1);
            })
      ]
    ]

filter-idle :
    (p : Task → Bool) (ts : List Task) → has_active ts ≡ false → has_active (filter p ts) ≡ false
filter-idle p [] h = refl
filter-idle p (t ∷ ts) h = ground (arith, filter-idle p ts)

-- After a restart whose recovery ends well no owner has a running or delivering request, where no
-- owner has two lists before.
pub recover-idle :
    (w : World) (s : Store) (o : Text) {s' : Store}
    → HasDistinctKeys s.index.owners
    → recover w s ≡ ok s'
    → has_active (tasks_of o s'.index) ≡ false
unfolding recover in_history
recover-idle w s o {s'} d h = elim (Fallible-cases (recover_owners w s.tables s.index.owners)) [
  | inr (e, bad) ↦ absurd (ground arith)
  | inl ((owners, tables), recovered) ↦
      let ended : Store = record s {
        index = record (s.index) { owners = owners };
        tables = tables;
      } in
      let idle : Idle s.index.owners owners =
        recover_owners-Idle w s.tables s.index.owners recovered in
      let swept : Store = (cleanup w ended).0 in
      elim (Fallible-cases (cleanup w ended).1) [
        | inr (e, bad) ↦ absurd (ground arith)
        | inl (u, done) ↦
            let clean : cleanup w ended ≡ (swept, ok tt) = ground arith in
            let kept : tasks_of o swept.index ≡ in_history w.now (tasks_of o ended.index) =
              cleanup-in_history w ended o (idle.distinct d) clean in
            let quiet : has_active (tasks_of o swept.index) ≡ false = ground (
              arith,
              kept,
              idle.quiet o,
              filter-idle (λ t. not (is_history_over w.now t)) (tasks_of o ended.index),
            ) in
            elim (Bool-cases (any (λ t. is_active t.state) (all_tasks s.index.owners))) [
              | inr same ↦ ground arith
              | inl changed ↦
                  ground (arith, quiet, save_locked-index w.commit no_extra swept {s' = s'})
            ]
      ]
]

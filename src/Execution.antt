-- ===== src/Execution.antt =====
-- core/execution/coordinator.go: who may execute now. An admission is known by its number; each
-- method runs under the coordinator's lock, and a goroutine's steps are operations of their own.
use codex_link_clawbot.Prelude.{
  ltb, leb, ◌==◌, if◌then◌else◌, reject_if, ◌>>=◌, ◌>>◌, Fallible, ok, err, ℕ, ◌+◌, ◌-◌, Bool, true,
  false, ◌&&◌, ◌||◌, not, Option, none, some, List, [], ◌∷◌,
}
use codex_link_clawbot.Text.{Text, text, text_eq, is_empty}
use codex_link_clawbot.Request.Types.{Index}
use codex_link_clawbot.Request.Index.{find, active_task}
use codex_link_clawbot.Request.Storage.{Store, World}
use codex_link_clawbot.Request.Lifecycle.{update_stage}
pub mod Sessions
pub mod Cancels

-- `Admission`; `cancelled_context` tells that `cancel` was called.
pub record Admission : Type 0 where
  pub number : ℕ
  pub owner : Text
  pub target : Text
  pub thread : Text
  pub source : Text
  pub task_id : Text
  pub cancel_requested : Bool
  pub finalizing : Bool
  pub launched : Bool
  pub cancelled_context : Bool

pub data BeginError : Type 0 where
  maintenance ingress_closed duplicate_source busy_session : BeginError

-- `Coordinator`, with the number that the next admission gets and the count of the wait group.
pub record Coordinator : Type 0 where
  pub active : List Admission
  pub is_draining : Bool
  pub stopped : Bool
  pub workers : ℕ
  pub effects : ℕ
  pub next_number : ℕ

-- `NewCoordinator`
abbrev pub new_coordinator : Coordinator
new_coordinator = record {
  active = [];
  is_draining = false;
  stopped = false;
  workers = 0;
  effects = 0;
  next_number = 0;
}

-- What asks to begin.
pub record Entrant : Type 0 where
  pub owner : Text
  pub target : Text
  pub thread : Text
  pub source : Text

abbrev pub named_and_eq : Text → Text → Bool
named_and_eq a b = not (is_empty a) && text_eq b a

abbrev pub same_source : Entrant → Admission → Bool
same_source e a = not (is_empty e.source) && text_eq a.owner e.owner && text_eq a.source e.source

abbrev pub same_session : Entrant → Admission → Bool
same_session e a =
    (not (is_empty e.target) && text_eq a.owner e.owner && text_eq a.target e.target)
    || named_and_eq e.thread a.thread

-- The thread that the store has attached to the admission's task since.
unfoldable pub same_attached : Index → Entrant → Admission → Bool
unfolding find
same_attached i e a =
    not (is_empty a.task_id)
    && not (is_empty e.thread)
    && (elim (find i a.owner a.task_id) [ none ↦ false | some t ↦ text_eq t.thread_id e.thread ])

-- The loop over the active admissions.
unfoldable pub first_conflict : Index → Entrant → List Admission → Fallible BeginError (Unit {0})
unfolding same_attached
first_conflict i e [] = ok tt
first_conflict i e (a ∷ rest) = do
  reject_if (same_source e a) duplicate_source
  reject_if (same_session e a) busy_session
  reject_if (same_attached i e a) busy_session
  first_conflict i e rest

abbrev pub admission_of : ℕ → Entrant → Admission
admission_of n e = record {
  number = n;
  owner = e.owner;
  target = e.target;
  thread = e.thread;
  source = e.source;
  task_id = [];
  cancel_requested = false;
  finalizing = false;
  launched = false;
  cancelled_context = false;
}

-- `begin`; the executor's `CanExecute` is an argument.
unfoldable pub begin :
    (Text → Bool)
    → Index
    → Entrant
    → Bool
    → Coordinator
    → Coordinator × Fallible BeginError Admission
unfolding first_conflict active_task
begin can_execute i e work c =
    if (work && c.is_draining) || c.stopped
    then (c, err maintenance)
    else if work && not (can_execute e.owner)
    then (c, err ingress_closed)
    else elim (first_conflict i e c.active) [
      | err x ↦ (c, err x)
      | ok u ↦ elim (active_task i e.owner e.target e.thread) [
        | some t ↦ (c, err busy_session)
        | none ↦ (
          record c {
            active = admission_of c.next_number e ∷ c.active;
            workers = c.workers + 1;
            next_number = c.next_number + 1;
          },
          ok (admission_of c.next_number e),
        )
      ]
    ]

-- The admission of a number, if it is active.
unfoldable pub admission_at : ℕ → List Admission → Option Admission
admission_at n [] = none
admission_at n (a ∷ rest) = if a.number == n then some a else admission_at n rest

unfoldable pub change_admission : ℕ → (Admission → Admission) → List Admission → List Admission
change_admission n f [] = []
change_admission n f (a ∷ rest) =
    if a.number == n then f a ∷ rest else a ∷ change_admission n f rest

-- `Launch`, up to the goroutine: the Boolean tells whether it starts the executor.
unfoldable pub launch : ℕ → Text → Coordinator → Coordinator × Bool
unfolding admission_at change_admission
launch n task_id c = elim (admission_at n c.active) [
  | none ↦ (c, false)
  | some a ↦ if a.launched then (c, false) else (
    record c {
      active = change_admission n (λ x. record x { task_id = task_id; launched = true }) c.active;
    },
    true,
  )
]

-- The callback of the executor: from here on a cancel comes too late.
unfoldable pub finalize : ℕ → Coordinator → Coordinator × Bool
unfolding admission_at change_admission
finalize n c = elim (admission_at n c.active) [
  | none ↦ (c, false)
  | some a ↦ (
    record c { active = change_admission n (λ x. record x { finalizing = true }) c.active },
    a.cancel_requested,
  )
]

unfoldable pub without_admission : ℕ → List Admission → List Admission
without_admission n [] = []
without_admission n (a ∷ rest) = if a.number == n then rest else a ∷ without_admission n rest

-- `releaseLocked`, and `release` at the executor's end.
unfoldable pub release_locked : ℕ → Coordinator → Coordinator
unfolding admission_at without_admission
release_locked n c = elim (admission_at n c.active) [
  | none ↦ c
  | some a ↦ record c { active = without_admission n c.active; workers = c.workers - 1 }
]

-- `Release`
unfoldable pub release_admission : ℕ → Coordinator → Coordinator
unfolding admission_at release_locked
release_admission n c = elim (admission_at n c.active) [
  | none ↦ c
  | some a ↦ if a.launched then c else release_locked n c
]

-- `WithIdleSession`: the session is held while the action runs, which is what happens to the
-- coordinator meanwhile. The executor is not asked.
unfoldable pub with_idle_session :
    Index
    → Text
    → Text
    → (Coordinator → Coordinator)
    → Coordinator
    → Coordinator × Fallible BeginError (Unit {0})
unfolding begin release_admission
with_idle_session i owner thread action c =
    let e : Entrant = record { owner = owner; target = []; thread = thread; source = [] } in
    let (held, begun) = begin (λ o. false) i e false c in
    elim begun [ err x ↦ (held, err x) | ok a ↦ (release_admission a.number (action held), ok tt) ]

-- The task of an admission that is not launched yet is looked up in the store.
unfoldable pub learn_task : Index → Admission → Admission
unfolding active_task
learn_task i a =
    if is_empty a.task_id
    then (elim (active_task i a.owner a.target a.thread) [
      | none ↦ a
      | some t ↦ record a { task_id = t.id }
    ])
    else a

abbrev pub is_cancellable : Text → Text → Admission → Bool
is_cancellable owner task_id a =
    text_eq a.owner owner && text_eq a.task_id task_id && not a.cancel_requested && not a.finalizing

-- The loop of `Cancel`, and the admissions after it.
unfoldable pub cancel_first : Index → Text → Text → List Admission → List Admission × Bool
unfolding learn_task
cancel_first i owner task_id [] = ([], false)
cancel_first i owner task_id (a ∷ rest) =
    let known = learn_task i a in
    let later = cancel_first i owner task_id rest in
    if is_cancellable owner task_id known
    then (record known { cancel_requested = true; cancelled_context = true } ∷ rest, true)
    else (known ∷ later.0, later.1)

-- What `Cancel` does to the coordinator.
unfoldable pub cancel_task : Index → Text → Text → Coordinator → Coordinator × Bool
unfolding cancel_first
cancel_task i owner task_id c =
    let found = cancel_first i owner task_id c.active in (record c { active = found.0 }, found.1)

-- `Cancel`: a cancel that hits also writes the stage line in the store, and ignores its error.
unfoldable pub cancel_and_tell :
    World → Text → Text → Coordinator × Store → (Coordinator × Store) × Bool
unfolding cancel_task update_stage text
cancel_and_tell w owner task_id (c, s) =
    let (c', hit) = cancel_task s.index owner task_id c in
    elim hit [
      | true ↦ ((c', (update_stage w owner task_id (text "已请求打断，正在确认停止") s).0), true)
      | false ↦ ((c', s), false)
    ]

-- `SetDraining`, and `Run` when its context is done.
unfoldable pub drain_coordinator : Bool → Coordinator → Coordinator
drain_coordinator b c = record c { is_draining = b }

unfoldable pub stop_coordinator : Coordinator → Coordinator
stop_coordinator c = record c { is_draining = true; stopped = true }

-- `Effect`, and its end.
unfoldable pub begin_effect : Coordinator → Coordinator × Bool
begin_effect c =
    if c.stopped || leb 32 c.effects
    then (c, false)
    else (record c { effects = c.effects + 1; workers = c.workers + 1 }, true)

unfoldable pub end_effect : Coordinator → Coordinator
end_effect c = record c { effects = c.effects - 1; workers = c.workers - 1 }

-- `EffectsActive`
unfoldable pub effects_active : Coordinator → Bool
effects_active c = ltb 0 c.effects

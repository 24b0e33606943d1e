-- ===== src/Execution/Sessions.antt =====
-- core/execution/coordinator.go: the active admissions of a session.
use codex_link_clawbot.Prelude.{
  leb, if◌then◌else◌, Bool-cases, Option-cases, Fallible-cases, ok, length, sum_of, ℕ, ◌+◌, ◌-◌,
  ◌≤◌, ◌<◌, ◌≡◌, refl, subst, inl, inr, Bool, true, false, ◌&&◌, ◌||◌, not, some, List, [], ◌∷◌,
  arith,
}
use codex_link_clawbot.Text.{Text, text_eq, text_eq_iff, is_empty}
use codex_link_clawbot.Request.Types.{Index}
use codex_link_clawbot.Request.Index.{active_task}
use codex_link_clawbot.Execution.{
  new_coordinator, first_conflict, admission_of, begin, admission_at, change_admission, launch,
  finalize, without_admission, release_locked, release_admission, learn_task, is_cancellable,
  cancel_first, cancel_task, drain_coordinator, stop_coordinator, begin_effect, end_effect,
  Admission, Coordinator, Entrant,
}

-- A count of admissions by owner, target and thread, which no operation changes on an admission.
abbrev place : (Text → Text → Text → ℕ) → Admission → ℕ
place h a = h a.owner a.target a.thread

abbrev pub on_thread : Text → Text → Text → Text → ℕ
on_thread thread o t th = if text_eq th thread then 1 else 0

abbrev pub on_target : Text → Text → Text → Text → Text → ℕ
on_target owner target o t th = if text_eq o owner && text_eq t target then 1 else 0

-- The active admissions of a thread, and of an owner's target.
unfoldable pub thread_admissions : Text → Coordinator → ℕ
thread_admissions thread c = sum_of (place (on_thread thread)) c.active

unfoldable pub target_admissions : Text → Text → Coordinator → ℕ
target_admissions owner target c = sum_of (place (on_target owner target)) c.active

pub record Exclusive (c : Coordinator) : Type 0 where
  pub threads : (thread : Text) → is_empty thread ≡ false → thread_admissions thread c ≤ 1
  pub targets :
      (owner target : Text) → is_empty target ≡ false → target_admissions owner target c ≤ 1
  pub awaited : c.workers ≡ length c.active + c.effects
  pub bounded : c.effects ≤ 32

-- The operations of the coordinator and of its goroutines; an effect ends that has begun.
pub data CoordinatorStep : Coordinator → Coordinator → Type 0 where
  begins :
      (can_execute : Text → Bool) (i : Index) (e : Entrant) (work : Bool) (c : Coordinator)
      → CoordinatorStep c (begin can_execute i e work c).0
  launches : (n : ℕ) (task_id : Text) (c : Coordinator) → CoordinatorStep c (launch n task_id c).0
  finalizes : (n : ℕ) (c : Coordinator) → CoordinatorStep c (finalize n c).0
  exits : (n : ℕ) (c : Coordinator) → CoordinatorStep c (release_locked n c)
  releases : (n : ℕ) (c : Coordinator) → CoordinatorStep c (release_admission n c)
  cancels :
      (i : Index) (owner task_id : Text) (c : Coordinator)
      → CoordinatorStep c (cancel_task i owner task_id c).0
  drains : (b : Bool) (c : Coordinator) → CoordinatorStep c (drain_coordinator b c)
  stops : (c : Coordinator) → CoordinatorStep c (stop_coordinator c)
  effect_begins : (c : Coordinator) → CoordinatorStep c (begin_effect c).0
  effect_ends : (c : Coordinator) → 0 < c.effects → CoordinatorStep c (end_effect c)

pub data CoordinatorReachable : Coordinator → Type 0 where
  fresh : CoordinatorReachable new_coordinator
  then_step :
      {c c' : Coordinator} → CoordinatorReachable c → CoordinatorStep c c' → CoordinatorReachable c'

first_conflict-thread :
    (i : Index) (e : Entrant) (list : List Admission)
    → first_conflict i e list ≡ ok tt
    → is_empty e.thread ≡ false
    → sum_of (place (on_thread e.thread)) list ≡ 0
unfolding first_conflict
first_conflict-thread i e [] h n = refl
first_conflict-thread i e (a ∷ list) h n = ground (arith, first_conflict-thread i e list)

first_conflict-target :
    (i : Index) (e : Entrant) (list : List Admission)
    → first_conflict i e list ≡ ok tt
    → is_empty e.target ≡ false
    → sum_of (place (on_target e.owner e.target)) list ≡ 0
unfolding first_conflict
first_conflict-target i e [] h n = refl
first_conflict-target i e (a ∷ list) h n = ground (arith, first_conflict-target i e list)

-- A list of admissions after an operation: none moves, and some may go.
pub record Shrinks (list list' : List Admission) : Type 0 where
  pub places : (h : Text → Text → Text → ℕ) → sum_of (place h) list' ≤ sum_of (place h) list
  pub counted : length list' ≡ length list

change_admission-Shrinks :
    (n : ℕ) (f : Admission → Admission) (list : List Admission)
    → ((h : Text → Text → Text → ℕ) (a : Admission) → place h (f a) ≡ place h a)
    → Shrinks list (change_admission n f list)
unfolding change_admission
change_admission-Shrinks n f [] same = record { places = λ h. omega arith; counted = refl }
change_admission-Shrinks n f (a ∷ list) same =
    let rest : Shrinks list (change_admission n f list) = change_admission-Shrinks n f list same in
    record {
      places = λ h. ground (arith, same h a, rest.places h);
      counted = ground (arith, rest.counted);
    }

learn_task-place :
    (i : Index) (h : Text → Text → Text → ℕ) (a : Admission) → place h (learn_task i a) ≡ place h a
unfolding learn_task
learn_task-place i h a = elim (Option-cases (active_task i a.owner a.target a.thread)) [
  | inl n ↦ ground arith
  | inr (t, e) ↦ ground arith
]

cancel_first-Shrinks :
    (i : Index) (owner task_id : Text) (list : List Admission)
    → Shrinks list (cancel_first i owner task_id list).0
unfolding cancel_first
cancel_first-Shrinks i owner task_id [] = record { places = λ h. omega arith; counted = refl }
cancel_first-Shrinks i owner task_id (a ∷ list) =
    let rest : Shrinks list (cancel_first i owner task_id list).0 =
      cancel_first-Shrinks i owner task_id list in
    elim (Bool-cases (is_cancellable owner task_id (learn_task i a))) [
      | inl hit ↦ record {
        places = λ h. ground (arith, learn_task-place i h a);
        counted = ground arith;
      }
      | inr miss ↦ record {
        places = λ h. ground (arith, learn_task-place i h a, rest.places h);
        counted = ground (arith, rest.counted);
      }
    ]

without_admission-places :
    (n : ℕ) (list : List Admission) (h : Text → Text → Text → ℕ)
    → sum_of (place h) (without_admission n list) ≤ sum_of (place h) list
unfolding without_admission
without_admission-places n [] h = omega arith
without_admission-places n (a ∷ list) h = ground (arith, without_admission-places n list h)

without_admission-length :
    (n : ℕ) (list : List Admission) {a : Admission}
    → admission_at n list ≡ some a
    → length (without_admission n list) + 1 ≡ length list
unfolding without_admission admission_at
without_admission-length n [] e = absurd (ground arith)
without_admission-length n (x ∷ list) {a} e =
    ground (arith, without_admission-length n list {a = a})

Shrinks-Exclusive :
    (c : Coordinator) (list : List Admission)
    → Shrinks c.active list
    → Exclusive c
    → Exclusive (record c { active = list })
unfolding thread_admissions target_admissions
Shrinks-Exclusive c list s x = record {
  threads = λ thread n. ground (arith, s.places (on_thread thread), x.threads thread n);
  targets =
      λ owner target n. ground (arith, s.places (on_target owner target), x.targets owner target n);
  awaited = ground (arith, s.counted, x.awaited);
  bounded = x.bounded;
}

begin-Exclusive :
    (can_execute : Text → Bool) (i : Index) (e : Entrant) (work : Bool) (c : Coordinator)
    → Exclusive c
    → Exclusive (begin can_execute i e work c).0
unfolding begin thread_admissions target_admissions
begin-Exclusive can_execute i e work c x = elim (Fallible-cases (first_conflict i e c.active)) [
  | inr (y, bad) ↦ subst (λ (z : Coordinator). Exclusive z) (ground arith) x
  | inl (tt, free) ↦
      let c' : Coordinator = record c {
        active = admission_of c.next_number e ∷ c.active;
        workers = c.workers + 1;
        next_number = c.next_number + 1;
      } in
      let taken : Exclusive c' = record {
        threads = λ thread n. ground (
          arith,
          x.threads thread n,
          text_eq_iff e.thread thread,
          first_conflict-thread i e c.active free,
        );
        targets = λ owner target n. ground (
          arith,
          x.targets owner target n,
          text_eq_iff e.owner owner,
          text_eq_iff e.target target,
          first_conflict-target i e c.active free,
        );
        awaited = ground (arith, x.awaited);
        bounded = x.bounded;
      } in
      elim (Option-cases (active_task i e.owner e.target e.thread)) [
        | inr (t, busy) ↦ subst (λ (z : Coordinator). Exclusive z) (ground arith) x
        | inl idle ↦
            elim (Bool-cases
              (((work && c.is_draining) || c.stopped) || (work && not (can_execute e.owner)))) [
                | inl shut ↦ subst (λ (z : Coordinator). Exclusive z) (ground arith) x
                | inr open_ ↦ subst (λ (z : Coordinator). Exclusive z) (ground arith) taken
              ]
      ]
]

release_locked-Exclusive : (n : ℕ) (c : Coordinator) → Exclusive c → Exclusive (release_locked n c)
unfolding release_locked thread_admissions target_admissions
release_locked-Exclusive n c x = elim (Option-cases (admission_at n c.active)) [
  | inl e ↦ subst (λ (z : Coordinator). Exclusive z) (ground arith) x
  | inr (a, e) ↦
      let c' : Coordinator = record c {
        active = without_admission n c.active;
        workers = c.workers - 1;
      } in
      let gone : Exclusive c' = record {
        threads = λ thread m.
            ground
              (arith, without_admission-places n c.active (on_thread thread), x.threads thread m);
        targets = λ owner target m. ground (
          arith,
          without_admission-places n c.active (on_target owner target),
          x.targets owner target m,
        );
        awaited = ground (arith, x.awaited, without_admission-length n c.active e);
        bounded = x.bounded;
      } in
      subst (λ (z : Coordinator). Exclusive z) (ground arith) gone
]

-- Every operation keeps each session with one active admission at most.
pub CoordinatorStep-Exclusive :
    {c c' : Coordinator} → CoordinatorStep c c' → Exclusive c → Exclusive c'
unfolding launch finalize release_admission cancel_task drain_coordinator stop_coordinator
    begin_effect end_effect thread_admissions target_admissions
CoordinatorStep-Exclusive (CoordinatorStep.begins can_execute i e work c) x =
    begin-Exclusive can_execute i e work c x
CoordinatorStep-Exclusive (CoordinatorStep.launches n task_id c) x =
    elim (Bool-cases (launch n task_id c).1) [
      | inr idle ↦ subst (λ (z : Coordinator). Exclusive z) (ground arith) x
      | inl started ↦
          subst (λ (z : Coordinator). Exclusive z) (ground arith)
            (Shrinks-Exclusive c
              (change_admission n
                (λ (y : Admission). record y { task_id = task_id; launched = true }) c.active)
              (change_admission-Shrinks n
                (λ (y : Admission). record y { task_id = task_id; launched = true }) c.active
                (λ h a. refl))
              x)
    ]
CoordinatorStep-Exclusive (CoordinatorStep.finalizes n c) x =
    elim (Option-cases (admission_at n c.active)) [
      | inl e ↦ subst (λ (z : Coordinator). Exclusive z) (ground arith) x
      | inr (a, e) ↦
          subst (λ (z : Coordinator). Exclusive z) (ground arith)
            (Shrinks-Exclusive c
              (change_admission n (λ (y : Admission). record y { finalizing = true }) c.active)
              (change_admission-Shrinks n (λ (y : Admission). record y { finalizing = true })
                c.active (λ h a. refl))
              x)
    ]
CoordinatorStep-Exclusive (CoordinatorStep.exits n c) x = release_locked-Exclusive n c x
CoordinatorStep-Exclusive (CoordinatorStep.releases n c) x =
    elim (Option-cases (admission_at n c.active)) [
      | inl e ↦ subst (λ (z : Coordinator). Exclusive z) (ground arith) x
      | inr (a, e) ↦ elim (Bool-cases a.launched) [
        | inl started ↦ subst (λ (z : Coordinator). Exclusive z) (ground arith) x
        | inr idle ↦
            subst (λ (z : Coordinator). Exclusive z) (ground arith) (release_locked-Exclusive n c x)
      ]
    ]
CoordinatorStep-Exclusive (CoordinatorStep.cancels i owner task_id c) x =
    Shrinks-Exclusive c (cancel_first i owner task_id c.active).0
      (cancel_first-Shrinks i owner task_id c.active) x
CoordinatorStep-Exclusive (CoordinatorStep.drains b c) x = record {
  threads = x.threads;
  targets = x.targets;
  awaited = x.awaited;
  bounded = x.bounded;
}
CoordinatorStep-Exclusive (CoordinatorStep.stops c) x = record {
  threads = x.threads;
  targets = x.targets;
  awaited = x.awaited;
  bounded = x.bounded;
}
CoordinatorStep-Exclusive (CoordinatorStep.effect_begins c) x =
    elim (Bool-cases (c.stopped || leb 32 c.effects)) [
      | inl full ↦ subst (λ (z : Coordinator). Exclusive z) (ground arith) x
      | inr room ↦
          let c' : Coordinator = record c { effects = c.effects + 1; workers = c.workers + 1 } in
          let more : Exclusive c' = record {
            threads = x.threads;
            targets = x.targets;
            awaited = ground (arith, x.awaited);
            bounded = ground (arith, x.bounded);
          } in
          subst (λ (z : Coordinator). Exclusive z) (ground arith) more
    ]
CoordinatorStep-Exclusive (CoordinatorStep.effect_ends c some_effect) x = record {
  threads = x.threads;
  targets = x.targets;
  awaited = ground (arith, x.awaited);
  bounded = ground (arith, x.bounded);
}

-- In every coordinator that its operations reach, each thread and each owner's target is held by
-- one active admission at most, the wait group counts the active admissions and the running
-- effects, and at most 32 effects run.
pub CoordinatorReachable-Exclusive : {c : Coordinator} → CoordinatorReachable c → Exclusive c
unfolding thread_admissions target_admissions
CoordinatorReachable-Exclusive CoordinatorReachable.fresh = record {
  threads = λ thread n. omega arith;
  targets = λ owner target n. omega arith;
  awaited = omega arith;
  bounded = omega arith;
}
CoordinatorReachable-Exclusive (CoordinatorReachable.then_step r s) =
    CoordinatorStep-Exclusive s (CoordinatorReachable-Exclusive r)

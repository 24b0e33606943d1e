-- ===== src/Runtime/Invariant.antt =====
-- core/runtimecontrol/controller.go: the invariant of the controller, its steps, and the setters
-- of a probe.
use codex_link_clawbot.Prelude.{
  if◌then◌else◌, Bool-cases, Option-cases, bool_eq, length, all, ℕ, ◌+◌, ◌-◌, ◌≡◌, refl, sym, ◌∙◌,
  subst, inl, inr, Bool, true, Option, some, ◌∷◌, arith,
}
use codex_link_clawbot.Text.{Text}
use codex_link_clawbot.Runtime.{
  new_controller, working_state, recalculated_state, recalculate, set_codex_ready, set_ready,
  set_stopping, begin_ingress, end_ingress, set_draining, new_monitor_probe, probe_at, put_probe,
  set_healthy_locked, without_batch, set_pending_locked, set_running, set_healthy,
  set_batch_pending, InstanceState, starting, ready, draining, stopping, degraded, Probe,
  Controller,
}
use codex_link_clawbot.Runtime.Probes.{
  healthy_count, has_batch, is_pending_at, is_sound, length-put_probe, sum_of-put_probe,
  probe_at-put_probe, has_batch-without_batch, put_probe-same,
}

-- The counters and the state follow the probes and the flags.
pub record Counted (c : Controller) : Type 0 where
  pub counts_monitors : c.monitors ≡ length c.probes
  pub counts_healthy : c.healthy ≡ healthy_count c.probes
  pub has_batches : (n : ℕ) → has_batch n c.pending_batches ≡ is_pending_at n c.probes
  pub follows : c.state ≡ recalculated_state c.state c

pub record WellFormed (c : Controller) : Type 0 where
  pub counted : Counted c
  pub sound : all is_sound c.probes ≡ true

-- The operations of the controller and its probes.
pub data Step : Controller → Controller → Type 0 where
  codex : (b : Bool) (c : Controller) → Step c (set_codex_ready b c)
  initialize : (c : Controller) → Step c (set_ready c)
  stop : (c : Controller) → Step c (set_stopping c)
  ingress : (c : Controller) → Step c (begin_ingress c)
  ingress_end : (c : Controller) → Step c (end_ingress c)
  drain_set : (b : Bool) (c : Controller) → Step c (set_draining b c)
  monitor : (c : Controller) → Step c (new_monitor_probe c)
  run : (n : ℕ) (b : Bool) (now : ℕ) (c : Controller) → Step c (set_running n b now c)
  health : (n : ℕ) (b : Bool) (now : ℕ) (c : Controller) → Step c (set_healthy n b now c)
  batch : (n : ℕ) (b : Bool) (now : ℕ) (c : Controller) → Step c (set_batch_pending n b now c)

pub data Reachable : Controller → Type 0 where
  started :
      (version : Text) (now : ℕ) (drainer : Option Bool)
      → Reachable (new_controller version now drainer)
  after : {c c' : Controller} → Reachable c → Step c c' → Reachable c'

-- The state that a recalculation picks depends on the working state only.
pub recalculated_state-by_flags :
    (x : InstanceState) (c c' : Controller)
    → working_state c' ≡ working_state c
    → recalculated_state x c' ≡ recalculated_state x c
unfolding recalculated_state
recalculated_state-by_flags starting c c' e = e
recalculated_state-by_flags ready c c' e = e
recalculated_state-by_flags draining c c' e = e
recalculated_state-by_flags stopping c c' e = refl
recalculated_state-by_flags degraded c c' e = e

pub recalculated_state-again :
    (x y : InstanceState) (c : Controller)
    → recalculated_state (recalculated_state x c) (record c { state = y }) ≡ recalculated_state x c
unfolding recalculated_state working_state
recalculated_state-again starting y c = ground arith
recalculated_state-again ready y c = ground arith
recalculated_state-again draining y c = ground arith
recalculated_state-again stopping y c = refl
recalculated_state-again degraded y c = ground arith

-- A recalculation brings the state back to the flags and leaves the counters.
pub recalculate-Counted :
    (c : Controller)
    → c.monitors ≡ length c.probes
    → c.healthy ≡ healthy_count c.probes
    → ((n : ℕ) → has_batch n c.pending_batches ≡ is_pending_at n c.probes)
    → Counted (recalculate c)
unfolding recalculate
recalculate-Counted c m h b = record {
  counts_monitors = m;
  counts_healthy = h;
  has_batches = b;
  follows = sym (recalculated_state-again c.state (recalculated_state c.state c) c);
}

pub set_healthy_locked-Counted :
    (n : ℕ) (b : Bool) (c : Controller) → Counted c → Counted (set_healthy_locked n b c)
unfolding set_healthy_locked
set_healthy_locked-Counted n b c k = elim (Option-cases (probe_at n c.probes)) [
  | inl e ↦ subst (λ (x : Controller). Counted x) (ground arith) k
  | inr (p, e) ↦ elim (Bool-cases (bool_eq p.is_healthy b)) [
    | inl same ↦ subst (λ (x : Controller). Counted x) (ground arith) k
    | inr other ↦
        let new : Probe = record p { is_healthy = b } in
        let c' : Controller = record c {
          probes = put_probe n new c.probes;
          healthy = if b then c.healthy + 1 else c.healthy - 1;
        } in
        subst (λ (x : Controller). Counted x) (ground arith)
          (recalculate-Counted c'
            (ground (arith, k.counts_monitors, length-put_probe n new c.probes))
            (ground (
              arith,
              k.counts_healthy,
              sum_of-put_probe (λ (x : Probe). if x.is_healthy then 1 else 0) n new p c.probes e,
            ))
            (λ m. ground (arith, k.has_batches m, probe_at-put_probe n m new p c.probes e)))
  ]
]

pub set_pending_locked-Counted :
    (n : ℕ) (b : Bool) (now : ℕ) (c : Controller)
    → Counted c
    → Counted (set_pending_locked n b now c)
unfolding set_pending_locked working_state
set_pending_locked-Counted n b now c k = elim (Option-cases (probe_at n c.probes)) [
  | inl e ↦ subst (λ (x : Controller). Counted x) (ground arith) k
  | inr (p, e) ↦ elim (Bool-cases (bool_eq p.is_pending b)) [
    | inl same ↦ subst (λ (x : Controller). Counted x) (ground arith) k
    | inr other ↦
        let new : Probe = record p { is_pending = b } in
        let c' : Controller = record c {
          probes = put_probe n new c.probes;
          pending_batches =
              if b
              then (n, now) ∷ without_batch n c.pending_batches
              else without_batch n c.pending_batches;
        } in
        let kept : Counted c' = record {
          counts_monitors = ground (arith, k.counts_monitors, length-put_probe n new c.probes);
          counts_healthy = ground (
            arith,
            k.counts_healthy,
            sum_of-put_probe (λ (x : Probe). if x.is_healthy then 1 else 0) n new p c.probes e,
          );
          has_batches = λ m. ground (
            arith,
            k.has_batches m,
            probe_at-put_probe n m new p c.probes e,
            has_batch-without_batch n m c.pending_batches,
          );
          follows = k.follows ∙ sym (recalculated_state-by_flags c.state c c' refl);
        } in
        subst (λ (x : Controller). Counted x) (ground arith) kept
  ]
]

-- What the two setters write on the probes.
pub set_healthy_locked-probes :
    (n : ℕ) (b : Bool) (c : Controller) (p : Probe)
    → probe_at n c.probes ≡ some p
    → (set_healthy_locked n b c).probes ≡ put_probe n (record p { is_healthy = b }) c.probes
unfolding set_healthy_locked recalculate
set_healthy_locked-probes n b c p e = elim (Bool-cases (bool_eq p.is_healthy b)) [
  | inr other ↦ ground arith
  | inl same ↦
      let as_was : record p { is_healthy = b } ≡ p = ground arith in
      ground (arith, as_was, put_probe-same n c.probes e)
]

pub set_pending_locked-probes :
    (n : ℕ) (b : Bool) (now : ℕ) (c : Controller) (p : Probe)
    → probe_at n c.probes ≡ some p
    → (set_pending_locked n b now c).probes ≡ put_probe n (record p { is_pending = b }) c.probes
unfolding set_pending_locked
set_pending_locked-probes n b now c p e = elim (Bool-cases (bool_eq p.is_pending b)) [
  | inr other ↦ ground arith
  | inl same ↦
      let as_was : record p { is_pending = b } ≡ p = ground arith in
      ground (arith, as_was, put_probe-same n c.probes e)
]

-- ===== src/Runtime.antt =====
-- core/runtimecontrol/controller.go: the state of the instance, and the probes of its monitors.
-- A probe is known by its number, in the order of `NewMonitorProbe`. Times are nanoseconds.
use codex_link_clawbot.Prelude.{
  ltb, ◌==◌, if◌then◌else◌, bool_eq, length, filter, ℕ, zero, suc, ◌+◌, ◌-◌, ◌/◌, Bool, true, false,
  ◌&&◌, ◌||◌, not, Option, none, some, List, [], ◌∷◌, ◌++◌,
}
use codex_link_clawbot.Text.{Text, text, is_empty}
pub mod Probes
pub mod Invariant
pub mod Steps
pub mod Reports

pub data InstanceState : Type 0 where
  starting ready draining stopping degraded : InstanceState

-- `MonitorProbe`
pub record Probe : Type 0 where
  pub is_running : Bool
  pub is_healthy : Bool
  pub is_pending : Bool

abbrev pub new_probe : Probe
new_probe = record { is_running = false; is_healthy = false; is_pending = false }

-- `Controller`, with the probes that point to it and the flag of the drainer, if it has one.
pub record Controller : Type 0 where
  pub version : Text
  pub started_at : ℕ
  pub state : InstanceState
  pub codex_ready : Bool
  pub is_draining : Bool
  pub initialized : Bool
  pub staging : ℕ
  pub monitors : ℕ
  pub healthy : ℕ
  pub pending_batches : List (ℕ × ℕ)
  pub last_success : Option ℕ
  pub drainer : Option Bool
  pub probes : List Probe

-- `New`
unfoldable pub new_controller : Text → ℕ → Option Bool → Controller
unfolding text
new_controller version now drainer = record {
  version = if is_empty version then text "dev" else version;
  started_at = now;
  state = starting;
  codex_ready = false;
  is_draining = false;
  initialized = false;
  staging = 0;
  monitors = 0;
  healthy = 0;
  pending_batches = [];
  last_success = none;
  drainer = drainer;
  probes = [];
}

-- The state that `recalculateStateLocked` picks when the instance does not stop.
unfoldable pub working_state : Controller → InstanceState
working_state c =
    if c.is_draining
    then draining
    else if not c.initialized
    then starting
    else if not c.codex_ready || (ltb 0 c.monitors && ltb c.healthy c.monitors)
    then degraded
    else ready

-- `recalculateStateLocked`
unfoldable pub recalculated_state : InstanceState → Controller → InstanceState
unfolding working_state
recalculated_state stopping c = stopping
recalculated_state _ c = working_state c

unfoldable pub recalculate : Controller → Controller
unfolding recalculated_state
recalculate c = record c { state = recalculated_state c.state c }

-- `SetCodexReady`, `SetReady`, `SetStopping`
unfoldable pub set_codex_ready : Bool → Controller → Controller
unfolding recalculate
set_codex_ready b c = recalculate (record c { codex_ready = b })

unfoldable pub set_ready : Controller → Controller
unfolding recalculate
set_ready c = recalculate (record c { initialized = true })

unfoldable pub set_stopping : Controller → Controller
set_stopping c = record c { state = stopping }

-- `BeginIngress` and `EndIngress`
unfoldable pub begin_ingress : Controller → Controller
begin_ingress c = record c { staging = c.staging + 1 }

unfoldable pub end_ingress : Controller → Controller
end_ingress c = record c { staging = c.staging - 1 }

-- `Drain` and `Resume`, before their reports.
unfoldable pub set_draining : Bool → Controller → Controller
unfolding recalculate
set_draining b c =
    let changed = recalculate (record c { is_draining = b }) in
    record changed { drainer = elim changed.drainer [ none ↦ none | some old ↦ some b ] }

-- `NewMonitorProbe`
unfoldable pub new_monitor_probe : Controller → Controller
unfolding recalculate
new_monitor_probe c =
    let counted = recalculate (record c { monitors = c.monitors + 1 }) in
    record counted { probes = counted.probes ++ (new_probe ∷ []) }

unfoldable pub probe_at : ℕ → List Probe → Option Probe
probe_at n [] = none
probe_at zero (p ∷ ps) = some p
probe_at (suc n) (p ∷ ps) = probe_at n ps

unfoldable pub put_probe : ℕ → Probe → List Probe → List Probe
put_probe n new [] = []
put_probe zero new (p ∷ ps) = new ∷ ps
put_probe (suc n) new (p ∷ ps) = p ∷ put_probe n new ps

-- `setHealthyLocked`
unfoldable pub set_healthy_locked : ℕ → Bool → Controller → Controller
unfolding recalculate probe_at put_probe
set_healthy_locked n b c = elim (probe_at n c.probes) [
  | none ↦ c
  | some p ↦
      if bool_eq p.is_healthy b
      then c
      else recalculate (record c {
        probes = put_probe n (record p { is_healthy = b }) c.probes;
        healthy = if b then c.healthy + 1 else c.healthy - 1;
      })
]

unfoldable pub without_batch : ℕ → List (ℕ × ℕ) → List (ℕ × ℕ)
without_batch n = filter (λ e. not (e.0 == n))

-- `setPendingLocked`
unfoldable pub set_pending_locked : ℕ → Bool → ℕ → Controller → Controller
unfolding probe_at put_probe without_batch
set_pending_locked n b now c = elim (probe_at n c.probes) [
  | none ↦ c
  | some p ↦ if bool_eq p.is_pending b then c else record c {
    probes = put_probe n (record p { is_pending = b }) c.probes;
    pending_batches =
        if b
        then (n, now) ∷ without_batch n c.pending_batches
        else without_batch n c.pending_batches;
  }
]

-- `SetRunning`, whose two locked sections, of the probe and of the controller, are one step here.
unfoldable pub set_running : ℕ → Bool → ℕ → Controller → Controller
unfolding set_healthy_locked set_pending_locked
set_running n b now c = elim (probe_at n c.probes) [
  | none ↦ c
  | some p ↦
      let changed = record c { probes = put_probe n (record p { is_running = b }) c.probes } in
      if bool_eq p.is_running b
      then c
      else if b
      then changed
      else set_pending_locked n false now (set_healthy_locked n false changed)
]

-- `SetHealthy`
unfoldable pub set_healthy : ℕ → Bool → ℕ → Controller → Controller
unfolding set_healthy_locked
set_healthy n b now c = elim (probe_at n c.probes) [
  | none ↦ c
  | some p ↦
      let kept = b && p.is_running in
      let changed = set_healthy_locked n kept c in
      if kept then (record changed { last_success = some now }) else changed
]

-- `SetBatchPending`
unfoldable pub set_batch_pending : ℕ → Bool → ℕ → Controller → Controller
unfolding set_pending_locked
set_batch_pending n b now c = elim (probe_at n c.probes) [
  | none ↦ c
  | some p ↦ set_pending_locked n (b && p.is_running) now c
]

-- `Snapshot`
pub record Snapshot : Type 0 where
  pub status : InstanceState
  pub version : Text
  pub uptime_seconds : ℕ
  pub codex_is_ready : Bool
  pub monitors : ℕ
  pub healthy : ℕ
  pub pending_batches : ℕ
  pub oldest_pending_seconds : Option ℕ
  pub last_success_seconds_ago : Option ℕ
  pub running_tasks : ℕ
  pub delivering_tasks : ℕ
  pub is_draining : Bool
  pub drain_complete : Bool

-- `time.Since(t).Seconds()` as a number of whole seconds, 0 for a time that is still to come.
abbrev pub seconds_since : ℕ → ℕ → ℕ
seconds_since now t = (now - t) / 1000000000

abbrev pub seconds_ago : ℕ → Option ℕ → Option ℕ
seconds_ago now none = none
seconds_ago now (some t) = some (seconds_since now t)

unfoldable pub oldest : Option ℕ → List (ℕ × ℕ) → Option ℕ
oldest best [] = best
oldest best ((n, at) ∷ rest) =
    oldest (elim best [ none ↦ some at | some b ↦ if ltb at b then some at else some b ]) rest

-- `Snapshot`, with the store's `ExecutionStatus` (both 0 without a store). -1 is `none` here.
unfoldable pub snapshot : ℕ → ℕ × ℕ → Controller → Snapshot
unfolding oldest
snapshot now activity c = record {
  status = c.state;
  version = c.version;
  uptime_seconds = seconds_since now c.started_at;
  codex_is_ready = c.codex_ready;
  monitors = c.monitors;
  healthy = c.healthy;
  pending_batches = length c.pending_batches;
  oldest_pending_seconds = seconds_ago now (oldest none c.pending_batches);
  last_success_seconds_ago = seconds_ago now c.last_success;
  running_tasks = activity.0;
  delivering_tasks = activity.1;
  is_draining = c.is_draining;
  drain_complete =
      c.is_draining
      && activity.0 == 0
      && activity.1 == 0
      && c.staging == 0
      && length c.pending_batches == 0;
}

-- `Drain` and `Resume`
unfoldable pub drain : ℕ → ℕ × ℕ → Controller → Controller × Snapshot
unfolding set_draining snapshot
drain now activity c = let c' = set_draining true c in (c', snapshot now activity c')

unfoldable pub resume : ℕ → ℕ × ℕ → Controller → Controller × Snapshot
unfolding set_draining snapshot
resume now activity c = let c' = set_draining false c in (c', snapshot now activity c')

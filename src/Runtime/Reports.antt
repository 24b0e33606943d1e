-- ===== src/Runtime/Reports.antt =====
-- core/runtimecontrol/controller.go: what a report says of the monitors and of the drain.
use codex_link_clawbot.Prelude.{
  length, all, any, ℕ, suc, ◌≤◌, ◌≡◌, refl, sym, ◌∙◌, true, false, List, [], ◌∷◌, arith,
}
use codex_link_clawbot.Runtime.{
  working_state, recalculated_state, probe_at, snapshot, InstanceState, starting, ready, draining,
  stopping, degraded, Probe, Controller,
}
use codex_link_clawbot.Runtime.Probes.{healthy_count, has_batch, is_pending_at}
use codex_link_clawbot.Runtime.Invariant.{Counted, Reachable}
use codex_link_clawbot.Runtime.Steps.{Reachable-WellFormed}

count-le : (ps : List Probe) → healthy_count ps ≤ length ps
count-le [] = omega arith
count-le (p ∷ ps) = ground (arith, count-le ps)

no_batch : (n : ℕ) (bs : List (ℕ × ℕ)) → length bs ≡ 0 → has_batch n bs ≡ false
no_batch n [] h = refl
no_batch n (b ∷ bs) h = absurd (ground arith)

all_healthy-of_count :
    (ps : List Probe) → healthy_count ps ≡ length ps → all (λ p. p.is_healthy) ps ≡ true
all_healthy-of_count [] h = refl
all_healthy-of_count (p ∷ ps) h = ground (arith, count-le ps, all_healthy-of_count ps)

recalculated_state-ready :
    (x : InstanceState) (c : Controller) → recalculated_state x c ≡ ready → working_state c ≡ ready
unfolding recalculated_state
recalculated_state-ready starting c h = h
recalculated_state-ready ready c h = h
recalculated_state-ready draining c h = h
recalculated_state-ready stopping c h = absurd (ground arith)
recalculated_state-ready degraded c h = h

working_state-ready :
    (c : Controller)
    → working_state c ≡ ready
    → (c.codex_ready ≡ true)
      × (c.initialized ≡ true)
      × (c.is_draining ≡ false)
      × (c.monitors ≤ c.healthy)
unfolding working_state
working_state-ready c h = (ground arith, ground arith, ground arith, ground arith)

-- A report of a reachable controller is `ready` only when Codex is ready, the instance has started
-- and does not drain, and every monitor that has ever been made is healthy.
pub snapshot-ready :
    (now : ℕ) (activity : ℕ × ℕ) {c : Controller}
    → Reachable c
    → (snapshot now activity c).status ≡ ready
    → (c.codex_ready ≡ true)
      × (c.initialized ≡ true)
      × (c.is_draining ≡ false)
      × (all (λ p. p.is_healthy) c.probes ≡ true)
unfolding snapshot
snapshot-ready now activity {c} r h =
    let k : Counted c = (Reachable-WellFormed r).counted in
    let (has_codex, has_started, works, enough) =
      working_state-ready c (recalculated_state-ready c.state c (sym k.follows ∙ h)) in
    (
      has_codex,
      has_started,
      works,
      all_healthy-of_count c.probes
          (ground (arith, enough, k.counts_monitors, k.counts_healthy, count-le c.probes)),
    )

none_pending :
    (ps : List Probe) → ((n : ℕ) → is_pending_at n ps ≡ false) → any (λ p. p.is_pending) ps ≡ false
unfolding probe_at
none_pending [] h = refl
none_pending (p ∷ ps) h = ground (arith, h 0, none_pending ps (λ n. h (suc n)))

-- A report of a reachable controller says that the drain is complete only when the instance drains,
-- no request is running or delivering, no message is being taken in, and no monitor is within a
-- batch.
pub snapshot-drained :
    (now : ℕ) (activity : ℕ × ℕ) {c : Controller}
    → Reachable c
    → (snapshot now activity c).drain_complete ≡ true
    → (c.is_draining ≡ true)
      × (activity ≡ (0, 0))
      × (c.staging ≡ 0)
      × (any (λ p. p.is_pending) c.probes ≡ false)
unfolding snapshot
snapshot-drained now activity {c} r h =
    let k : Counted c = (Reachable-WellFormed r).counted in
    (
      ground arith,
      ground arith,
      ground arith,
      none_pending c.probes (λ n. ground (arith, k.has_batches n, no_batch n c.pending_batches)),
    )

-- ===== src/Runtime/Steps.antt =====
-- core/runtimecontrol/controller.go: the invariant of the controller under each operation.
use codex_link_clawbot.Prelude.{
  if◌then◌else◌, Bool-cases, Option-cases, bool_eq, all, length-append, sum_of-append, ℕ, ◌+◌, ◌≡◌,
  refl, sym, ap, ◌∙◌, subst, inl, inr, Bool, true, false, ◌&&◌, some, List, [], ◌∷◌, ◌++◌, arith,
}
use codex_link_clawbot.Runtime.{
  new_probe, new_controller, working_state, recalculated_state, recalculate, set_codex_ready,
  set_ready, set_stopping, begin_ingress, end_ingress, set_draining, new_monitor_probe, probe_at,
  put_probe, set_healthy_locked, set_pending_locked, set_running, set_healthy, set_batch_pending,
  InstanceState, Probe, Controller,
}
use codex_link_clawbot.Runtime.Probes.{
  is_sound, probe_at-append, all-append, length-put_probe, sum_of-put_probe, all-put_probe,
  all-probe_at, probe_at-put_probe, put_probe-twice,
}
use codex_link_clawbot.Runtime.Invariant.{
  recalculated_state-by_flags, recalculated_state-again, recalculate-Counted,
  set_healthy_locked-Counted, set_pending_locked-Counted, set_healthy_locked-probes,
  set_pending_locked-probes, Counted, WellFormed, Step, Reachable,
}

-- A controller whose flags and probes are those of a counted one, in every counter and in its
-- state.
renamed-Counted :
    (c c' : Controller)
    → c'.monitors ≡ c.monitors
    → c'.healthy ≡ c.healthy
    → c'.pending_batches ≡ c.pending_batches
    → c'.probes ≡ c.probes
    → c'.state ≡ c.state
    → working_state c' ≡ working_state c
    → Counted c
    → Counted c'
renamed-Counted c c' m h b p s f k = record {
  counts_monitors = ground (arith, k.counts_monitors);
  counts_healthy = ground (arith, k.counts_healthy);
  has_batches = λ n. ground (arith, k.has_batches n);
  follows =
      s
      ∙ k.follows
      ∙ sym (recalculated_state-by_flags c.state c c' f)
      ∙ ap (λ x. recalculated_state x c') (sym s);
}

-- A write of one probe that keeps its health and its batch keeps the counters.
put_running-Counted :
    (n : ℕ) (b : Bool) (c : Controller) (p : Probe)
    → probe_at n c.probes ≡ some p
    → Counted c
    → Counted (record c { probes = put_probe n (record p { is_running = b }) c.probes })
unfolding working_state
put_running-Counted n b c p e k =
    let new : Probe = record p { is_running = b } in
    record {
      counts_monitors = ground (arith, k.counts_monitors, length-put_probe n new c.probes);
      counts_healthy = ground (
        arith,
        k.counts_healthy,
        sum_of-put_probe (λ (x : Probe). if x.is_healthy then 1 else 0) n new p c.probes e,
      );
      has_batches = λ m. ground (arith, k.has_batches m, probe_at-put_probe n m new p c.probes e);
      follows =
          k.follows
          ∙ sym (
              recalculated_state-by_flags c.state c (record c { probes = put_probe n new c.probes })
                refl);
    }

set_running-WellFormed :
    (n : ℕ) (b : Bool) (now : ℕ) (c : Controller)
    → WellFormed c
    → WellFormed (set_running n b now c)
unfolding set_running
set_running-WellFormed n b now c k = elim (Option-cases (probe_at n c.probes)) [
  | inl e ↦ subst (λ (x : Controller). WellFormed x) (ground arith) k
  | inr (p, e) ↦ elim (Bool-cases (bool_eq p.is_running b)) [
    | inl same ↦ subst (λ (x : Controller). WellFormed x) (ground arith) k
    | inr other ↦
        let new : Probe = record p { is_running = b } in
        let c' : Controller = record c { probes = put_probe n new c.probes } in
        let counted : Counted c' = put_running-Counted n b c p e k.counted in
        let at : probe_at n c'.probes ≡ some new =
          ground (arith, probe_at-put_probe n n new p c.probes e) in
        elim (Bool-cases b) [
          | inl on ↦
              let kept : WellFormed c' = record {
                counted = counted;
                sound = all-put_probe is_sound n new c.probes k.sound (ground arith);
              } in
              subst (λ (x : Controller). WellFormed x) (ground arith) kept
          | inr off ↦
              let unwell : Controller = set_healthy_locked n false c' in
              let ill : Probe = record new { is_healthy = false } in
              let idle : Probe = record ill { is_pending = false } in
              let written : unwell.probes ≡ put_probe n ill c'.probes =
                set_healthy_locked-probes n false c' new at in
              let at_unwell : probe_at n unwell.probes ≡ some ill =
                ground (arith, written, probe_at-put_probe n n ill new c'.probes at) in
              let last : (set_pending_locked n false now unwell).probes
                  ≡ put_probe n idle c.probes =
                ground (
                  arith,
                  set_pending_locked-probes n false now unwell ill at_unwell,
                  written,
                  put_probe-twice n idle ill c'.probes,
                  put_probe-twice n idle new c.probes,
                ) in
              let kept : WellFormed (set_pending_locked n false now unwell) = record {
                counted =
                    set_pending_locked-Counted n false now unwell
                      (set_healthy_locked-Counted n false c' counted);
                sound =
                    subst (λ ps. all is_sound ps ≡ true) (sym last)
                      (all-put_probe is_sound n idle c.probes k.sound (ground arith));
              } in
              subst (λ (x : Controller). WellFormed x) (ground arith) kept
        ]
  ]
]

set_healthy-WellFormed :
    (n : ℕ) (b : Bool) (now : ℕ) (c : Controller)
    → WellFormed c
    → WellFormed (set_healthy n b now c)
unfolding set_healthy working_state
set_healthy-WellFormed n b now c k = elim (Option-cases (probe_at n c.probes)) [
  | inl e ↦ subst (λ (x : Controller). WellFormed x) (ground arith) k
  | inr (p, e) ↦
      let kept : Bool = b && p.is_running in
      let c' : Controller = set_healthy_locked n kept c in
      let well : WellFormed c' = record {
        counted = set_healthy_locked-Counted n kept c k.counted;
        sound =
            subst (λ ps. all is_sound ps ≡ true) (sym (set_healthy_locked-probes n kept c p e))
              (all-put_probe is_sound n (record p { is_healthy = kept }) c.probes k.sound
                (ground (arith, all-probe_at is_sound n c.probes k.sound e)));
      } in
      let noted : WellFormed (record c' { last_success = some now }) = record {
        counted =
            renamed-Counted c' (record c' { last_success = some now }) refl refl refl refl refl refl
              well.counted;
        sound = well.sound;
      } in
      elim (Bool-cases kept) [
        | inl yes_kept ↦ subst (λ (x : Controller). WellFormed x) (ground arith) noted
        | inr not_kept ↦ subst (λ (x : Controller). WellFormed x) (ground arith) well
      ]
]

set_batch_pending-WellFormed :
    (n : ℕ) (b : Bool) (now : ℕ) (c : Controller)
    → WellFormed c
    → WellFormed (set_batch_pending n b now c)
unfolding set_batch_pending
set_batch_pending-WellFormed n b now c k = elim (Option-cases (probe_at n c.probes)) [
  | inl e ↦ subst (λ (x : Controller). WellFormed x) (ground arith) k
  | inr (p, e) ↦
      let kept : Bool = b && p.is_running in
      let well : WellFormed (set_pending_locked n kept now c) = record {
        counted = set_pending_locked-Counted n kept now c k.counted;
        sound =
            subst (λ ps. all is_sound ps ≡ true) (sym (set_pending_locked-probes n kept now c p e))
              (all-put_probe is_sound n (record p { is_pending = kept }) c.probes k.sound
                (ground (arith, all-probe_at is_sound n c.probes k.sound e)));
      } in
      subst (λ (x : Controller). WellFormed x) (ground arith) well
]

recalculated-WellFormed :
    (c c' : Controller)
    → c'.monitors ≡ c.monitors
    → c'.healthy ≡ c.healthy
    → c'.pending_batches ≡ c.pending_batches
    → c'.probes ≡ c.probes
    → WellFormed c
    → WellFormed (recalculate c')
unfolding recalculate
recalculated-WellFormed c c' m h b p k = record {
  counted =
      recalculate-Counted c' (ground (arith, k.counted.counts_monitors))
        (ground (arith, k.counted.counts_healthy)) (λ n. ground (arith, k.counted.has_batches n));
  sound = ground (arith, k.sound);
}

new_monitor_probe-WellFormed : (c : Controller) → WellFormed c → WellFormed (new_monitor_probe c)
unfolding new_monitor_probe recalculate working_state
new_monitor_probe-WellFormed c k =
    let ps : List Probe = c.probes ++ (new_probe ∷ []) in
    let c1 : Controller = record c { monitors = c.monitors + 1 } in
    let x : InstanceState = recalculated_state c.state c1 in
    record {
      counted = record {
        counts_monitors =
            ground (arith, k.counted.counts_monitors, length-append c.probes (new_probe ∷ []));
        counts_healthy = ground (
          arith,
          k.counted.counts_healthy,
          sum_of-append (λ (x : Probe). if x.is_healthy then 1 else 0) c.probes (new_probe ∷ []),
        );
        has_batches = λ n. ground (arith, k.counted.has_batches n, probe_at-append n c.probes);
        follows =
            sym (recalculated_state-again c.state x c1)
            ∙ sym (
                recalculated_state-by_flags x (record c1 { state = x })
                  (record c1 { state = x; probes = ps }) refl);
      };
      sound = ground (arith, k.sound, all-append is_sound c.probes (new_probe ∷ []));
    }

kept-WellFormed :
    (c c' : Controller)
    → c'.monitors ≡ c.monitors
    → c'.healthy ≡ c.healthy
    → c'.pending_batches ≡ c.pending_batches
    → c'.probes ≡ c.probes
    → c'.state ≡ c.state
    → working_state c' ≡ working_state c
    → WellFormed c
    → WellFormed c'
kept-WellFormed c c' m h b p s f k = record {
  counted = renamed-Counted c c' m h b p s f k.counted;
  sound = ground (arith, k.sound);
}

-- Each operation of the controller or of a probe keeps the controller well formed: the counters
-- agree with the probes, a probe that does not run is neither healthy nor within a batch, and the
-- state is the one that the flags and the counters call for, unless the instance stops.
pub Step-WellFormed : {c c' : Controller} → Step c c' → WellFormed c → WellFormed c'
unfolding set_codex_ready set_ready set_stopping begin_ingress end_ingress set_draining
    working_state recalculated_state recalculate
Step-WellFormed (Step.codex b c) k =
    recalculated-WellFormed c (record c { codex_ready = b }) refl refl refl refl k
Step-WellFormed (Step.initialize c) k =
    recalculated-WellFormed c (record c { initialized = true }) refl refl refl refl k
Step-WellFormed (Step.stop c) k = record {
  counted = record {
    counts_monitors = k.counted.counts_monitors;
    counts_healthy = k.counted.counts_healthy;
    has_batches = k.counted.has_batches;
    follows = refl;
  };
  sound = k.sound;
}
Step-WellFormed (Step.ingress c) k =
    kept-WellFormed c (begin_ingress c) refl refl refl refl refl refl k
Step-WellFormed (Step.ingress_end c) k =
    kept-WellFormed c (end_ingress c) refl refl refl refl refl refl k
Step-WellFormed (Step.drain_set b c) k =
    let c' : Controller = recalculate (record c { is_draining = b }) in
    kept-WellFormed c' (set_draining b c) refl refl refl refl refl refl
      (recalculated-WellFormed c (record c { is_draining = b }) refl refl refl refl k)
Step-WellFormed (Step.monitor c) k = new_monitor_probe-WellFormed c k
Step-WellFormed (Step.run n b now c) k = set_running-WellFormed n b now c k
Step-WellFormed (Step.health n b now c) k = set_healthy-WellFormed n b now c k
Step-WellFormed (Step.batch n b now c) k = set_batch_pending-WellFormed n b now c k

-- Every controller that the operations reach from a new one is well formed.
pub Reachable-WellFormed : {c : Controller} → Reachable c → WellFormed c
unfolding new_controller recalculated_state working_state probe_at
Reachable-WellFormed (Reachable.started version now drainer) = record {
  counted = record {
    counts_monitors = refl;
    counts_healthy = refl;
    has_batches = λ n. refl;
    follows = refl;
  };
  sound = refl;
}
Reachable-WellFormed (Reachable.after r st) = Step-WellFormed st (Reachable-WellFormed r)

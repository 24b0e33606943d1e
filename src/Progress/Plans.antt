-- ===== src/Progress/Plans.antt =====
-- core/execution/progress.go: the signatures of plans.
use codex_link_clawbot.Prelude.{
  Bool-cases, ℕ, ◌≤◌, ◌<◌, ◌≡◌, refl, sym, ◌∙◌, ◌≢◌, ◌⊎◌, inl, inr, true, false, some, [], ◌∷◌,
  ◌++◌, arith,
}
use codex_link_clawbot.Text.{
  Text, text_eq, text_eq_iff, text_eq_refl, is_empty, trim_space, is_digit,
}
use codex_link_clawbot.Progress.{
  phase_text, terminal_turn_phase, plan_signature, plan_update, prepare_known, prepare_phase_update,
  accept_update, accept, turn_planning, TurnEvent, PhaseUpdate, Reporter,
}
use codex_link_clawbot.Presentation.Lines.{truncate}
use codex_link_clawbot.Presentation.Activity.{sanitize_activity}
use codex_link_clawbot.Presentation.Numbers.{decimal, decimal-split, ℤ}

append_cancel : (p s t : Text) → p ++ s ≡ p ++ t → s ≡ t
append_cancel [] s t h = h
append_cancel (c ∷ p) s t h = append_cancel p s t (ground arith)

colon_is_no_digit : is_digit b':' ≡ false
unfolding is_digit
colon_is_no_digit = refl

-- The signatures of two plans are the same only when both counts and the steps are.
pub plan_signature-injective :
    (c t c' t' : ℕ) (step step' : Text)
    → plan_signature c t step ≡ plan_signature c' t' step'
    → (c ≡ c') × (t ≡ t') × (step ≡ step')
unfolding plan_signature
plan_signature-injective c t c' t' step step' h =
    let tails =
      append_cancel (phase_text turn_planning)
        (b':' ∷ decimal c ++ (b':' ∷ decimal t ++ (b':' ∷ step)))
        (b':' ∷ decimal c' ++ (b':' ∷ decimal t' ++ (b':' ∷ step'))) h in
    let first =
      decimal-split c c' (decimal t ++ (b':' ∷ step)) (decimal t' ++ (b':' ∷ step')) b':'
        colon_is_no_digit (ground (arith, tails)) in
    let last = decimal-split t t' step step' b':' colon_is_no_digit first.1 in
    (first.0, last.0, last.1)

abbrev pub plan_event : Text → Text → ℕ → ℕ → TurnEvent
plan_event turn step complete total = record {
  turn_id = turn;
  phase = turn_planning;
  step = step;
  complete = ℤ.pos complete;
  total = ℤ.pos total;
}

-- No progress of a plan is lost: after a plan that a running reporter accepted, a plan of the same
-- turn with other counts that are in order is accepted, whatever the steps are.
pub accept-plans :
    (turn step step' : Text) (c t c' t' : ℕ) (r : Reporter) {r' : Reporter} {u : PhaseUpdate}
    → accept (plan_event turn step c t) r ≡ (r', some u)
    → 0 < t'
    → c' ≤ t'
    → (c ≢ c') ⊎ (t ≢ t')
    → (accept (plan_event turn step' c' t') r').1
      ≡ some (plan_update c' t' (truncate (sanitize_activity step') 72))
unfolding accept accept_update prepare_phase_update prepare_known terminal_turn_phase
accept-plans turn step step' c t c' t' r {r'} {u} h some_total in_order other =
    let shown : Text = truncate (sanitize_activity step) 72 in
    let shown' : Text = truncate (sanitize_activity step') 72 in
    let named : is_empty (trim_space turn) ≡ false = ground arith in
    let last : r'.last_accepted ≡ plan_signature c t shown = ground arith in
    let open_still : r'.frozen ≡ false = ground arith in
    let here : (is_empty r'.turn_id ≡ true) ⊎ (text_eq r'.turn_id turn ≡ true) =
      elim (Bool-cases (is_empty r.turn_id)) [
        | inl y ↦ inr (ground (arith, y, text_eq_refl turn))
        | inr n ↦ inr (ground (arith, n))
      ] in
    let fresh : text_eq r'.last_accepted (plan_signature c' t' shown') ≡ false =
      elim (Bool-cases (text_eq r'.last_accepted (plan_signature c' t' shown'))) [
        | inr n ↦ n
        | inl y ↦
            let same =
              plan_signature-injective c t c' t' shown shown'
                (sym last ∙ (text_eq_iff r'.last_accepted (plan_signature c' t' shown')).0 y) in
            elim other [ inl n ↦ absurd (n same.0) | inr n ↦ absurd (n same.1) ]
      ] in
    ground (arith, named, open_still, here, fresh)

-- ===== src/Progress/Accepted.antt =====
-- core/execution/progress.go: the events that a reporter accepts.
use codex_link_clawbot.Prelude.{
  ◌==◌, if◌then◌else◌, Bool-cases, Option-cases, ok, length, all, ◌≡◌, refl, ◌⊎◌, inl, inr, Bool,
  true, false, ◌&&◌, ◌||◌, not, none, some, List, [], ◌∷◌, arith,
}
use codex_link_clawbot.Text.{Text, text_eq, is_empty, trim_left, trim_right, trim_space}
use codex_link_clawbot.Progress.{
  validate_progress, new_reporter, terminal_turn_phase, prepare_phase_update, accept_update, accept,
  close_reporter, TurnEvent, ProgressConfig, PhaseUpdate, Reporter,
}

-- The events of a list that are accepted, one after the other.
pub accepted_events : List TurnEvent → Reporter → List TurnEvent
accepted_events [] r = []
accepted_events (e ∷ es) r =
    let rest = accepted_events es (accept e r).0 in
    elim (accept e r).1 [ none ↦ rest | some u ↦ e ∷ rest ]

abbrev pub signature_of : TurnEvent → Text
signature_of e = elim (prepare_phase_update e) [ none ↦ [] | some u ↦ u.signature ]

abbrev accepted_by : TurnEvent → Reporter → Reporter
accepted_by e r = record r {
  turn_id = if is_empty r.turn_id then e.turn_id else r.turn_id;
  last_accepted = signature_of e;
  frozen = terminal_turn_phase e.phase || r.frozen;
}

named_turn :
    (e : TurnEvent) {u : PhaseUpdate} → prepare_phase_update e ≡ some u → is_empty e.turn_id ≡ false
unfolding prepare_phase_update is_empty trim_space trim_left trim_right
named_turn e h = elim (Bool-cases (is_empty e.turn_id)) [
  | inr n ↦ n
  | inl y ↦ absurd (ground (arith, y))
]

record Acceptance (e : TurnEvent) (r : Reporter) : Type 0 where
  running : r.frozen ≡ false
  same_turn : is_empty r.turn_id ≡ true ⊎ text_eq r.turn_id e.turn_id ≡ true
  is_new : text_eq r.last_accepted (signature_of e) ≡ false
  named : is_empty e.turn_id ≡ false
  result : (accept e r).0 ≡ accepted_by e r

accept-cases :
    (e : TurnEvent) (r : Reporter)
    → (((accept e r).1 ≡ none) × ((accept e r).0 ≡ r))
      ⊎ ((u : PhaseUpdate) × ((accept e r).1 ≡ some u) × Acceptance e r)
unfolding accept accept_update
accept-cases e r = elim (Option-cases (prepare_phase_update e)) [
  | inl n ↦ inl (ground (arith, n), ground (arith, n))
  | inr (u, is) ↦
      let off_turn : Bool = not (is_empty r.turn_id) && not (text_eq r.turn_id e.turn_id) in
      elim (Bool-cases (r.frozen || off_turn || text_eq r.last_accepted u.signature)) [
        | inl y ↦ inl (ground (arith, is, y), ground (arith, is, y))
        | inr n ↦ inr (
          u,
          ground (arith, is, n),
          record {
            running = ground (arith, n);
            same_turn = elim (Bool-cases (is_empty r.turn_id)) [
              | inl y ↦ inl y
              | inr named ↦ inr (ground (arith, n, named))
            ];
            is_new = ground (arith, is, n);
            named = named_turn e is;
            result = ground (arith, is, n);
          },
        )
      ]
]

frozen-accepted_events :
    (es : List TurnEvent) (r : Reporter) → r.frozen ≡ true → accepted_events es r ≡ []
unfolding accepted_events
frozen-accepted_events [] r f = refl
frozen-accepted_events (e ∷ es) r f = elim (accept-cases e r) [
  | inl (n, same) ↦ ground (arith, n, same, frozen-accepted_events es r f)
  | inr (u, is, acceptance) ↦ absurd (ground (arith, acceptance.running))
]

-- All events after the first one are of its turn.
abbrev pub is_one_turn : List TurnEvent → Bool
is_one_turn [] = true
is_one_turn (e ∷ es) = all (λ f. text_eq e.turn_id f.turn_id) es

-- Nothing stands after an event of a terminal phase.
abbrev pub ends_with_terminal : List TurnEvent → Bool
ends_with_terminal [] = true
ends_with_terminal (e ∷ es) =
    (not (terminal_turn_phase e.phase) || length es == 0) && ends_with_terminal es

-- No event has the signature of the one before it.
abbrev pub has_no_repeat : Text → List TurnEvent → Bool
has_no_repeat last [] = true
has_no_repeat last (e ∷ es) =
    not (text_eq last (signature_of e)) && has_no_repeat (signature_of e) es

accepted_events-turn :
    (es : List TurnEvent) (r : Reporter)
    → is_empty r.turn_id ≡ false
    → all (λ f. text_eq r.turn_id f.turn_id) (accepted_events es r) ≡ true
unfolding accepted_events
accepted_events-turn [] r h = refl
accepted_events-turn (e ∷ es) r h = elim (accept-cases e r) [
  | inl (n, same) ↦ ground (arith, n, same, accepted_events-turn es r h)
  | inr (u, is, a) ↦
      let kept : (accept e r).0.turn_id ≡ r.turn_id = ground (arith, a.result, h) in
      let named : is_empty (accept e r).0.turn_id ≡ false = ground (arith, kept, h) in
      let same : text_eq r.turn_id e.turn_id ≡ true = elim a.same_turn [
        | inl y ↦ absurd (ground (arith, y, h))
        | inr y ↦ y
      ] in
      let rest = accepted_events-turn es (accept e r).0 named in
      ground (arith, is, kept, same, rest)
]

accepted_events-one_turn :
    (es : List TurnEvent) (r : Reporter)
    → is_empty r.turn_id ≡ true
    → is_one_turn (accepted_events es r) ≡ true
unfolding accepted_events
accepted_events-one_turn [] r h = refl
accepted_events-one_turn (e ∷ es) r h = elim (accept-cases e r) [
  | inl (n, same) ↦ ground (arith, n, same, accepted_events-one_turn es r h)
  | inr (u, is, a) ↦
      let turn : (accept e r).0.turn_id ≡ e.turn_id = ground (arith, a.result, h) in
      let named : is_empty (accept e r).0.turn_id ≡ false = ground (arith, turn, a.named) in
      let rest = accepted_events-turn es (accept e r).0 named in ground (arith, is, turn, rest)
]

accepted_events-ends :
    (es : List TurnEvent) (r : Reporter) → ends_with_terminal (accepted_events es r) ≡ true
unfolding accepted_events
accepted_events-ends [] r = refl
accepted_events-ends (e ∷ es) r = elim (accept-cases e r) [
  | inl (n, same) ↦ ground (arith, n, same, accepted_events-ends es r)
  | inr (u, is, a) ↦ ground (
    arith,
    is,
    a.result,
    accepted_events-ends es (accept e r).0,
    frozen-accepted_events es (accept e r).0,
  )
]

accepted_events-no_repeat :
    (es : List TurnEvent) (r : Reporter)
    → has_no_repeat r.last_accepted (accepted_events es r) ≡ true
unfolding accepted_events
accepted_events-no_repeat [] r = refl
accepted_events-no_repeat (e ∷ es) r = elim (accept-cases e r) [
  | inl (n, same) ↦ ground (arith, n, same, accepted_events-no_repeat es r)
  | inr (u, is, a) ↦
      let last : (accept e r).0.last_accepted ≡ signature_of e = ground (arith, a.result) in
      ground (arith, is, a.is_new, last, accepted_events-no_repeat es (accept e r).0)
]

-- Of any events, in any order, a new reporter accepts those of one turn, none after one of a
-- terminal phase, and none that repeats the signature of the one accepted before it.
pub accepted_events-in_order :
    (config : ProgressConfig) (can_send_slow : Bool) (es : List TurnEvent) {r : Reporter}
    → new_reporter config can_send_slow ≡ ok r
    → (is_one_turn (accepted_events es r) ≡ true)
      × (ends_with_terminal (accepted_events es r) ≡ true)
      × (has_no_repeat [] (accepted_events es r) ≡ true)
unfolding new_reporter validate_progress is_empty
accepted_events-in_order config can_send_slow es {r} h =
    let unnamed : r.turn_id ≡ [] = ground arith in
    let fresh : r.last_accepted ≡ [] = ground arith in
    (
      accepted_events-one_turn es r (ground (arith, unnamed)),
      accepted_events-ends es r,
      ground (arith, fresh, accepted_events-no_repeat es r),
    )

-- A reporter that is closed accepts nothing more.
pub close_reporter-accepted_events :
    (es : List TurnEvent) (r : Reporter) → accepted_events es (close_reporter r) ≡ []
unfolding close_reporter
close_reporter-accepted_events es r =
    frozen-accepted_events es (record r { frozen = true; is_cancelled = true }) refl

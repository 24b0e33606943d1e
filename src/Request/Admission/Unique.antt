-- ===== src/Request/Admission/Unique.antt =====
-- core/request/model.go: the sessions and the sources of a valid index.
use codex_link_clawbot.Prelude.{
  if◌then◌else◌, Bool-cases, >>=-eq-ok, Fallible-cases, ok, sum_of, sum_of-append, ℕ, ◌+◌, ◌≤◌, ◌≡◌,
  refl, inl, inr, true, false, ◌&&◌, not, none, List, [], ◌∷◌, arith,
}
use codex_link_clawbot.Text.{Text, text_eq, text_eq_iff}
use codex_link_clawbot.Map.{Map, lookup, contains}
use codex_link_clawbot.Request.Types.{
  state_eq, valid_state, terminal, State, running, delivering, succeeded, failed, interrupted,
  cancelled, Task, ClearedReceipt, Index,
}
use codex_link_clawbot.Request.Valid.{bad_state, validate_task}
use codex_link_clawbot.Request.Index.{
  task_session, is_active, member, nothing_seen, see, scan_task, scan_tasks, scan_owners,
  scan_cleared, validate_index, find_source, find_source_in, find_by_source_locked, Seen,
}
use codex_link_clawbot.Request.Retention.{all_tasks}
use codex_link_clawbot.Request.Lifecycle.Validity.{validate_task-TaskIsValid}
use codex_link_clawbot.Request.Admission.Session.{in_session, holders}

abbrev counted : Text → Seen → ℕ
counted key seen = if member key seen.sessions then 1 else 0

active_iff_not-terminal : (s : State) → valid_state s ≡ true → not (terminal s) ≡ is_active s
unfolding valid_state terminal is_active state_eq
active_iff_not-terminal running h = refl
active_iff_not-terminal delivering h = refl
active_iff_not-terminal succeeded h = refl
active_iff_not-terminal failed h = refl
active_iff_not-terminal interrupted h = refl
active_iff_not-terminal cancelled h = refl
active_iff_not-terminal (State.other x) h = absurd (ground arith)

bad_state-valid : (t : Task) → bad_state t ≡ false → valid_state t.state ≡ true
unfolding bad_state
bad_state-valid t h = ground arith

validate_task-state :
    (t : Task) (owner : Text)
    → validate_task t owner ≡ ok tt
    → not (terminal t.state) ≡ is_active t.state
validate_task-state t owner h =
    active_iff_not-terminal t.state
      (bad_state-valid t (validate_task-TaskIsValid t owner h).in_state)

scan_task-count :
    (key owner : Text) (seen : Seen) (t : Task) {later : Seen}
    → scan_task owner seen t ≡ ok later
    → in_session key t + counted key seen ≡ counted key later
unfolding scan_task member
scan_task-count key owner seen t {later} h =
    let valid : validate_task t owner ≡ ok tt = ground arith in
    let active = validate_task-state t owner valid in
    let same : later ≡ see seen t = ground arith in
    let fresh_session : (is_active t.state && member (task_session t) seen.sessions) ≡ false =
      ground arith in
    ground (arith, active, same, fresh_session, text_eq_iff (task_session t) key)

scan_tasks-count :
    (key owner : Text) (seen : Seen) (ts : List Task) {later : Seen}
    → scan_tasks owner seen ts ≡ ok later
    → sum_of (in_session key) ts + counted key seen ≡ counted key later
unfolding scan_tasks
scan_tasks-count key owner seen [] h = ground arith
scan_tasks-count key owner seen (t ∷ ts) {later} h =
    let (mid, one, rest) = >>=-eq-ok (scan_task owner seen t) (λ x. scan_tasks owner x ts) h in
    omega (arith, scan_task-count key owner seen t one, scan_tasks-count key owner mid ts rest)

scan_owners-count :
    (key : Text) (seen : Seen) (m : Map (List Task)) {later : Seen}
    → scan_owners seen m ≡ ok later
    → sum_of (in_session key) (all_tasks m) + counted key seen ≡ counted key later
unfolding scan_owners all_tasks
scan_owners-count key seen [] h = ground arith
scan_owners-count key seen ((owner, ts) ∷ m) {later} h =
    elim (Fallible-cases (scan_tasks owner seen ts)) [
      | inr (e, bad) ↦ absurd (ground arith)
      | inl (mid, scanned) ↦
          let rest : scan_owners mid m ≡ ok later = ground arith in
          omega (
            arith,
            sum_of-append (in_session key) ts (all_tasks m),
            scan_tasks-count key owner seen ts scanned,
            scan_owners-count key mid m rest,
          )
    ]

-- In a valid index every session has at most one task that is not in a terminal state, whatever its
-- owner: a save that commits never writes two.
pub validate_index-one_holder :
    (key : Text) (i : Index) → validate_index i ≡ ok tt → holders key i ≤ 1
unfolding validate_index holders
validate_index-one_holder key i h = elim (Fallible-cases (scan_owners nothing_seen i.owners)) [
  | inr (e, bad) ↦ absurd (ground arith)
  | inl (seen, scanned) ↦ ground (arith, scan_owners-count key nothing_seen i.owners scanned)
]

scan_tasks-sources :
    (k owner : Text) (seen : Seen) (ts : List Task) {later : Seen}
    → scan_tasks owner seen ts ≡ ok later
    → member k later.sources ≡ false
    → (find_source k ts ≡ none) × (member k seen.sources ≡ false)
unfolding scan_tasks scan_task member
scan_tasks-sources k owner seen [] h n = (refl, ground arith)
scan_tasks-sources k owner seen (t ∷ ts) {later} h n =
    let (mid, one, rest) = >>=-eq-ok (scan_task owner seen t) (λ x. scan_tasks owner x ts) h in
    let same : mid ≡ see seen t = ground arith in
    let (later_none, unseen) = scan_tasks-sources k owner mid ts rest n in
    (ground (arith, same, later_none, unseen), ground (arith, same, unseen))

scan_owners-sources :
    (k : Text) (seen : Seen) (m : Map (List Task)) {later : Seen}
    → scan_owners seen m ≡ ok later
    → member k later.sources ≡ false
    → (find_source_in k m ≡ none) × (member k seen.sources ≡ false)
unfolding scan_owners find_source_in
scan_owners-sources k seen [] h n = (refl, ground arith)
scan_owners-sources k seen ((owner, ts) ∷ m) {later} h n =
    elim (Fallible-cases (scan_tasks owner seen ts)) [
      | inr (e, bad) ↦ absurd (ground arith)
      | inl (mid, scanned) ↦
          let rest : scan_owners mid m ≡ ok later = ground arith in
          let (absent, unseen) = scan_owners-sources k mid m rest n in
          let (here, before) = scan_tasks-sources k owner seen ts scanned unseen in
          (ground (arith, absent, here), before)
    ]

scan_cleared-sources :
    (k : Text) (sources : List Text) (m : Map ClearedReceipt) {out : List Text}
    → scan_cleared sources m ≡ ok out
    → contains k m ≡ true
    → member k sources ≡ false
unfolding scan_cleared contains lookup member
scan_cleared-sources k sources [] h c = absurd (ground arith)
scan_cleared-sources k sources ((source, r) ∷ m) {out} h c =
    let rest : scan_cleared (source ∷ sources) m ≡ ok out = ground arith in
    let unseen : member source sources ≡ false = ground arith in
    elim (Bool-cases (text_eq source k)) [
      | inl same ↦ ground (arith, unseen, text_eq_iff source k)
      | inr other ↦ ground (arith, scan_cleared-sources k (source ∷ sources) m rest)
    ]

-- In a valid index a source with a cleared receipt has no task.
pub validate_index-cleared :
    (source : Text) (i : Index)
    → validate_index i ≡ ok tt
    → contains source i.cleared ≡ true
    → find_by_source_locked i source ≡ none
unfolding validate_index find_by_source_locked
validate_index-cleared source i h c = elim (Fallible-cases (scan_owners nothing_seen i.owners)) [
  | inr (e, bad) ↦ absurd (ground arith)
  | inl (seen, scanned) ↦ elim (Fallible-cases (scan_cleared seen.sources i.cleared)) [
    | inr (e, bad) ↦ absurd (ground arith)
    | inl (sources, cleared) ↦
        (scan_owners-sources source nothing_seen i.owners scanned
          (scan_cleared-sources source seen.sources i.cleared cleared c)).0
  ]
]

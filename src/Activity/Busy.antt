-- ===== src/Activity/Busy.antt =====
-- core/execution/activity.go: what an idle conversation means.
use codex_link_clawbot.Prelude.{
  Bool-cases, Option-cases, ◌≡◌, inl, inr, true, false, none, some, [], arith,
}
use codex_link_clawbot.Text.{Text, text, text_eq, is_empty}
use codex_link_clawbot.Request.Types.{Index}
use codex_link_clawbot.Request.Index.{active_task}
use codex_link_clawbot.Activity.{catalog_activity, with_turn, read_activity, Activity, CodexStatus}

catalog_activity-idle :
    (i : Index) (owner target thread status : Text)
    → (catalog_activity i owner target thread status).busy ≡ false
    → (active_task i owner target thread ≡ none) × (text_eq status (text "active") ≡ false)
unfolding catalog_activity
catalog_activity-idle i owner target thread status h =
    elim (Option-cases (active_task i owner target thread)) [
      | inr (t, there) ↦ absurd (ground (arith, there))
      | inl n ↦ elim (Bool-cases (text_eq status (text "active"))) [
        | inl y ↦ absurd (ground (arith, n, y))
        | inr m ↦ (n, m)
      ]
    ]

catalog_activity-unnamed :
    (i : Index) (owner target thread : Text)
    → active_task i owner target thread ≡ none
    → is_empty (catalog_activity i owner target thread []).task_id ≡ true
unfolding catalog_activity text is_empty text_eq
catalog_activity-unnamed i owner target thread n = ground (arith, n)

with_turn-busy :
    (codex : CodexStatus) (thread : Text) (a : Activity)
    → (with_turn codex thread a).0.busy ≡ a.busy
with_turn-busy codex thread a = elim (Option-cases (codex.active_turn thread)) [
  | inl n ↦ ground (arith, n)
  | inr (turn, is) ↦ ground (arith, is)
]

-- A status that could not be read is never shown as idle: a conversation with a thread that is
-- shown as not busy has no active request in the store when Codex has answered, and Codex has
-- answered that the thread is not active.
pub read_activity-idle :
    (codex : CodexStatus) (owner target thread : Text) (i later : Index)
    → is_empty thread ≡ false
    → (read_activity codex owner target thread i later).0.busy ≡ false
    → (active_task later owner target thread ≡ none)
      × ((status : Text) × (codex.read_status thread ≡ some status)
          × (text_eq status (text "active") ≡ false))
unfolding read_activity
read_activity-idle codex owner target thread i later named h =
    let first : Activity = catalog_activity i owner target thread [] in
    elim (Bool-cases (is_empty first.task_id)) [
      | inr busy_there ↦
          let not_busy : first.busy ≡ false = ground (arith, busy_there) in
          let idle = catalog_activity-idle i owner target thread [] not_busy in
          absurd (ground (arith, busy_there, catalog_activity-unnamed i owner target thread idle.0))
      | inl unnamed ↦ elim (Option-cases (codex.read_status thread)) [
        | inl n ↦ absurd (ground (arith, unnamed, named, n))
        | inr (status, answered) ↦
            let second : Activity = catalog_activity later owner target thread status in
            let same : (with_turn codex thread second).0.busy ≡ second.busy =
              with_turn-busy codex thread second in
            let not_busy : second.busy ≡ false = ground (arith, unnamed, named, answered, same) in
            let idle = catalog_activity-idle later owner target thread status not_busy in
            (idle.0, (status, answered, idle.1))
      ]
    ]

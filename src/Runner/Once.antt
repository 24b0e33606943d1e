-- ===== src/Runner/Once.antt =====
-- core/execution/runner.go: the deliveries of a whole execution.
use codex_link_clawbot.Prelude.{
  if◌then◌else◌, Bool-cases, Option-cases, Fallible-cases, Fallible, ok, err, sum_of, ℕ, ◌+◌, ◌≤◌,
  ◌≡◌, refl, ap, ◌∙◌, inl, inr, List, [], ◌∷◌, arith,
}
use codex_link_clawbot.Text.{Text, is_empty}
use codex_link_clawbot.Request.Types.{Task, Error}
use codex_link_clawbot.Request.Lifecycle.{attach_thread}
use codex_link_clawbot.Target.{resolve, bind, Intent, TargetError, Targets}
use codex_link_clawbot.Progress.{new_reporter, report, TurnEvent, Reporter}
use codex_link_clawbot.Runner.{
  use_requests, open_thread, prepare_run, follow_event, follow_events, chat_run, execute, ChatError,
  Run, Outside, Stop,
}
use codex_link_clawbot.Runner.Sent.{
  is_delivery, deliveries, fail_before-deliveries, chat_failed-deliveries, conclude-deliveries,
}

open_thread-sent :
    (w : Outside) (t : Task) (intent : Intent) (run : Run)
    → (open_thread w t intent run).0.sent ≡ run.sent
unfolding open_thread
open_thread-sent w t intent run =
    let wanted : Text = if is_empty t.thread_id then intent.thread_id else t.thread_id in
    elim (Fallible-cases (w.opens wanted)) [
      | inr (e, bad) ↦ ground (arith, bad)
      | inl (thread, good) ↦
          let moved : Targets × Fallible TargetError (Unit {0}) =
            bind w.target_world t.owner_id t.target_id thread run.targets in
          let bound : Run × Fallible TargetError (Unit {0}) =
            if is_empty intent.thread_id
            then (record run { targets = moved.0 }, moved.1)
            else (run, ok tt) in
          let quiet : bound.0.sent ≡ run.sent = ground arith in
          let attached : Run × Fallible Error Task =
            use_requests w (λ world. attach_thread world t.owner_id t.id thread) bound.0 in
          elim (Fallible-cases bound.1) [
            | inr (e, bad) ↦ ground (arith, good, bad, quiet)
            | inl (u, resolved) ↦ elim (Bool-cases (is_empty t.thread_id)) [
              | inr fixed ↦ ground (arith, good, resolved, quiet, fixed)
              | inl fresh ↦ elim (Fallible-cases attached.1) [
                | inr (e, bad) ↦ ground (arith, good, resolved, quiet, fresh, bad)
                | inl (x, done) ↦ ground (arith, good, resolved, quiet, fresh, done)
              ]
            ]
          ]
    ]

prepare_run-sent : (w : Outside) (t : Task) (run : Run) → (prepare_run w t run).0.sent ≡ run.sent
unfolding prepare_run
prepare_run-sent w t run =
    let ready : Run = record run { requests = (w.prepare run.requests).0 } in
    elim (Fallible-cases (resolve t.owner_id t.target_id ready.targets)) [
      | inr (e, bad) ↦ ground (arith, bad)
      | inl (intent, good) ↦ ground (arith, good, open_thread-sent w t intent ready)
    ]

follow_event-sent :
    (w : Outside) (t : Task) (e : TurnEvent) (reporter : Reporter) (run : Run)
    → (follow_event w t e (reporter, run)).1.sent ≡ run.sent
unfolding follow_event
follow_event-sent w t e reporter run = elim (Option-cases (report e reporter).1) [
  | inl n ↦ ground (arith, n)
  | inr (line, told) ↦ ground (arith, told)
]

follow_events-sent :
    (w : Outside) (t : Task) (es : List TurnEvent) (at : Reporter × Run)
    → (follow_events w t es at).1.sent ≡ at.1.sent
unfolding follow_events
follow_events-sent w t [] at = refl
follow_events-sent w t (e ∷ es) at =
    follow_events-sent w t es (follow_event w t e at) ∙ follow_event-sent w t e at.0 at.1

chat_run-sent : (w : Outside) (t : Task) (run : Run) → (chat_run w t run).sent ≡ run.sent
unfolding chat_run
chat_run-sent w t run = elim (Fallible-cases (new_reporter w.progress w.can_send_slow)) [
  | inr (e, bad) ↦ elim (Option-cases w.usage) [
    | inl n ↦ ground (arith, bad, n)
    | inr (usage, known) ↦ ground (arith, bad, known)
  ]
  | inl (reporter, good) ↦
      let same = follow_events-sent w t w.events (reporter, run) in
      elim (Option-cases w.usage) [
        | inl n ↦ ground (arith, good, n, same)
        | inr (usage, known) ↦ ground (arith, good, known, same)
      ]
]

-- What Codex has answered counts for one delivery, an error for none.
abbrev pub answers : Fallible ChatError Text → ℕ
answers (ok reply) = 1
answers (err e) = 0

-- An execution hands a result to the channel once at most, and never when Codex has failed,
-- whatever the stores, Codex and the channel answer.
pub execute-deliveries :
    (w : Outside) (t : Task) (run : Run)
    → deliveries (execute w t run) ≤ deliveries run + answers w.chat
unfolding execute
execute-deliveries w t run =
    let prepared : Run × Fallible Stop Text = prepare_run w t run in
    let quiet = prepare_run-sent w t run in
    elim (Fallible-cases prepared.1) [
      | inr (why, bad) ↦
          let same : deliveries (execute w t run) ≡ deliveries run =
            ground (arith, bad, quiet, fail_before-deliveries w t why prepared.0) in
          omega (arith, same)
      | inl (thread, good) ↦
          let named : Task = record t { thread_id = thread } in
          let answered : Run = chat_run w named prepared.0 in
          let silent : deliveries answered ≡ deliveries run =
            ap (λ s. sum_of is_delivery s) (chat_run-sent w named prepared.0 ∙ quiet) in
          elim (Fallible-cases w.chat) [
            | inr (e, bad) ↦
                ground (arith, good, bad, silent, chat_failed-deliveries w t e answered)
            | inl (reply, came) ↦
                ground (arith, good, came, silent, conclude-deliveries w t reply answered)
          ]
    ]

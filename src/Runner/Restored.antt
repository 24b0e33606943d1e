-- ===== src/Runner/Restored.antt =====
-- core/execution/runner.go: RestoreResult.
use codex_link_clawbot.Prelude.{
  leb, ◌==◌, Bool-cases, Option-cases, Fallible-cases, Fallible, ok, err, ℕ, ◌≡◌, inl, inr, Bool,
  false, ◌||◌, not, some, arith,
}
use codex_link_clawbot.Text.{Text, text_eq_refl, is_empty, trim_space}
use codex_link_clawbot.Request.Types.{Task, ResultArtifact, Result, Error, result_unavailable}
use codex_link_clawbot.Request.Index.{find}
use codex_link_clawbot.Request.Storage.{Store, World}
use codex_link_clawbot.Request.Lifecycle.{update_task_locked}
use codex_link_clawbot.Request.Lifecycle.Effect.{find-with_tasks}
use codex_link_clawbot.Request.Lifecycle.Transition.{locate-ok}
use codex_link_clawbot.Request.Lifecycle.Update.{update_task_locked-ok}
use codex_link_clawbot.Request.Delivery.{
  load_completion, set_frozen, save_result, build_result, freeze_result, FreezeResultInput,
}
use codex_link_clawbot.Runner.{freeze_reply, restore_result, Run, Outside}

-- What freezing leaves of the task: its completion, and an archive that has not failed.
freeze_result-archived :
    (w : World) (freeze : Text → Fallible Error ResultArtifact) (owner id : Text)
    (input : FreezeResultInput) (s : Store) {s' : Store} {r : Result}
    → freeze_result w freeze owner id input s ≡ (s', ok r)
    → (new : Task) × (find s'.index owner id ≡ some new) × (new.archive_failed ≡ false)
unfolding freeze_result set_frozen
freeze_result-archived w freeze owner id input s {s'} {r} h =
    elim (Option-cases (find s.index owner id)) [
      | inl n ↦ absurd (ground (arith, n))
      | inr (t, there) ↦ elim (Fallible-cases (build_result w freeze t input s)) [
        | inr (e, bad) ↦ absurd (ground (arith, there, bad))
        | inl (result, built) ↦
            let written : Store × Fallible Error Task =
              update_task_locked w (save_result t.id result) owner id (set_frozen result) s in
            elim (Fallible-cases written.1) [
              | inr (e, bad) ↦ absurd (ground (arith, there, built, bad))
              | inl (new, done) ↦
                  let (tasks, old, located, changed, index) =
                    update_task_locked-ok w (save_result t.id result) owner id (set_frozen result) s
                      {s' = written.0} {new = new} (ground (arith, done)) in
                  let (known, at) = locate-ok s.index owner id located in
                  let same : s' ≡ written.0 = ground (arith, there, built, done) in
                  (
                    new,
                    ground (
                      arith,
                      same,
                      text_eq_refl (trim_space owner),
                      text_eq_refl (trim_space id),
                      find-with_tasks owner id owner id new old tasks s written.0 known at
                          (ground (arith, changed)) index,
                    ),
                    ground (arith, changed),
                  )
            ]
      ]
    ]

freeze_reply-archived :
    (w : Outside) (owner id reply : Text) (run : Run) {run' : Run} {r : Result}
    → freeze_reply w owner id reply run ≡ (run', ok r)
    → (new : Task) × (find run'.requests.index owner id ≡ some new) × (new.archive_failed ≡ false)
unfolding freeze_reply
freeze_reply-archived w owner id reply run {run'} {r} h = elim (Fallible-cases (w.collect reply)) [
  | inr (e, bad) ↦ absurd (ground (arith, bad))
  | inl (input, good) ↦
      let world : World = w.world run.calls in
      let (new, found, archived) =
        freeze_result-archived world w.freeze_file owner id input run.requests {s' = run'.requests}
          {r = r} (ground (arith, good)) in
      (new, found, archived)
]

-- A restored result is restored once: of a request that is looked up by its own owner and id, a
-- second restore after one that ended well is refused, at any later time and whatever Codex answers
-- then, and leaves the stores as they are.
pub restore_result-once :
    (w later : Outside) (owner id : Text) (run : Run) (t : Task) {run' : Run} {r : Result}
    → find run.requests.index owner id ≡ some t
    → t.owner_id ≡ owner
    → t.id ≡ id
    → restore_result w owner id run ≡ (run', ok r)
    → restore_result later owner id run' ≡ (run', err result_unavailable)
unfolding restore_result
restore_result-once w later owner id run t {run'} {r} found own_owner own_id h =
    let now : ℕ = (w.world run.calls).now in
    let refused : Bool =
      t.execution_completed_at == 0 || not t.archive_failed || leb t.result_expires_at now in
    let restored : (new : Task) × (find run'.requests.index owner id ≡ some new)
        × (new.archive_failed ≡ false) =
      elim (Bool-cases refused) [
        | inl y ↦ absurd (ground (arith, found, y))
        | inr n ↦ elim (Fallible-cases (load_completion now owner id run.requests)) [
          | inl (c, kept) ↦
              freeze_reply-archived w owner id c.reply run {run' = run'} {r = r}
                (ground (arith, found, n, kept, own_owner, own_id))
          | inr (e, bad) ↦ elim (Option-cases (w.read_turn t.thread_id t.turn_id)) [
            | inl gone ↦ absurd (ground (arith, found, n, bad, gone))
            | inr (reply, was) ↦ elim (Bool-cases (is_empty t.turn_id)) [
              | inl unnamed ↦ absurd (ground (arith, found, n, bad, was, unnamed))
              | inr named ↦
                  freeze_reply-archived w owner id reply run {run' = run'} {r = r}
                    (ground (arith, found, n, bad, was, named, own_owner, own_id))
            ]
          ]
        ]
      ] in
    ground (arith, restored.1, restored.2)

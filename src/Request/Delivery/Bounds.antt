-- ===== src/Request/Delivery/Bounds.antt =====
-- core/request/result.go: the room of a frozen result.
use codex_link_clawbot.Prelude.{
  Fallible-cases, Fallible, ok, ℕ, ◌+◌, ◌≤◌, ◌≡◌, inl, inr, List, [], ◌∷◌, arith,
}
use codex_link_clawbot.Text.{Text, len}
use codex_link_clawbot.Request.Types.{
  max_task_bytes, max_result_reply_bytes, Task, ResultArtifact, Result, Error,
}
use codex_link_clawbot.Request.Valid.{artifact_bytes}
use codex_link_clawbot.Request.Storage.{Store, World}
use codex_link_clawbot.Request.Retention.{max_result_reservation, result_size}
use codex_link_clawbot.Request.Delivery.{
  freeze_artifacts, frozen_result, build_result, FreezeResultInput,
}

freeze_artifacts-bytes :
    (freeze : Text → Fallible Error ResultArtifact) (seen : List Text) (total : ℕ)
    (paths : List Text) {artifacts : List ResultArtifact}
    → total ≤ max_task_bytes
    → freeze_artifacts freeze seen total paths ≡ ok artifacts
    → total + artifact_bytes artifacts ≤ max_task_bytes
unfolding freeze_artifacts
freeze_artifacts-bytes freeze seen total [] fits h = ground arith
freeze_artifacts-bytes freeze seen total (path ∷ paths) fits h =
    elim (Fallible-cases (freeze path)) [
      | inr (e, bad) ↦ absurd (ground arith)
      | inl (a, read) ↦
          elim (Fallible-cases (freeze_artifacts freeze (a.path ∷ seen) (total + a.size) paths)) [
            | inr (e, bad) ↦ absurd (ground arith)
            | inl (rest, more) ↦ ground (
              arith,
              freeze_artifacts-bytes freeze (a.path ∷ seen) (total + a.size) paths
                  {artifacts = rest},
            )
          ]
    ]

-- A result that is built to be frozen takes no more room than the worst case that `Start` reserved
-- for its request, whatever the files are.
pub build_result-reserved :
    (w : World) (freeze : Text → Fallible Error ResultArtifact) (t : Task)
    (input : FreezeResultInput) (s : Store) {r : Result}
    → build_result w freeze t input s ≡ ok r
    → result_size r ≤ max_result_reservation
unfolding build_result result_size
build_result-reserved w freeze t input s {r} h =
    elim (Fallible-cases (freeze_artifacts freeze [] 0 input.artifact_paths)) [
      | inr (e, bad) ↦ absurd (ground arith)
      | inl (artifacts, frozen) ↦
          let bytes : 0 + artifact_bytes artifacts ≤ max_task_bytes =
            freeze_artifacts-bytes freeze [] 0 input.artifact_paths (omega arith) frozen in
          let same : r ≡ frozen_result w.now t input artifacts = ground arith in
          let short : len input.reply ≤ max_result_reply_bytes = ground arith in
          ground (arith, bytes, short, same)
    ]

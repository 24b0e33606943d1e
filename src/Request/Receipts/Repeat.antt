-- ===== src/Request/Receipts/Repeat.antt =====
-- core/request/recovery.go: the attempts of a redelivery.
use codex_link_clawbot.Prelude.{
  max, Bool-cases, Option-cases, Fallible-cases, ok, length, drop, ◌≡◌, ap, ◌∙◌, inl, inr, Bool,
  true, false, some, List, [], ◌∷◌, ◌++◌, arith,
}
use codex_link_clawbot.Text.{Text, text_eq, text_eq_refl}
use codex_link_clawbot.Map.{lookup, lookup-insert_self}
use codex_link_clawbot.Request.Types.{
  reason_delivery_ambiguous, Task, Index, ambiguous, DeliveryReceipt, Result,
}
use codex_link_clawbot.Request.Index.{find_task_locked}
use codex_link_clawbot.Request.Storage.{update_tables, Tables, Store, World}
use codex_link_clawbot.Request.Delivery.{save_receipts, read_result, load_result}
use codex_link_clawbot.Request.Receipts.{has_attempt, begin_redelivery}

has_attempt-append :
    (operation : Text) (rs : List DeliveryReceipt) (r : DeliveryReceipt)
    → text_eq r.operation_id operation ≡ true
    → has_attempt operation (rs ++ (r ∷ [])) ≡ true
unfolding has_attempt
has_attempt-append operation [] r h = ground arith
has_attempt-append operation (x ∷ rs) r h = ground (arith, has_attempt-append operation rs r)

has_attempt-extend :
    (operation : Text) (rs more : List DeliveryReceipt)
    → has_attempt operation rs ≡ true
    → has_attempt operation (rs ++ more) ≡ true
unfolding has_attempt
has_attempt-extend operation [] more h = absurd (ground arith)
has_attempt-extend operation (x ∷ rs) more h = ground (arith, has_attempt-extend operation rs more)

-- The result that a load returns is the row.
load_result-row :
    (w : World) (tables : Tables) (t : Task) {r : Result}
    → load_result w tables t ≡ ok r
    → lookup t.id tables.results ≡ some r
unfolding load_result read_result
load_result-row w tables t {r} h = elim (Option-cases (lookup t.id tables.results)) [
  | inl n ↦ absurd (ground arith)
  | inr (row, e) ↦ ground arith
]

begin_redelivery-recorded :
    (w : World) (owner id operation_id : Text) (s : Store) {s' : Store} {r : Result} {b : Bool}
    → begin_redelivery w owner id operation_id s ≡ (s', ok (r, b))
    → (operation : Text) × (t : Task) × (row : Result) × (w.lib.parse_uuid operation_id
        ≡ some operation)
      × (find_task_locked s.index owner id ≡ some t)
      × (s'.index ≡ s.index)
      × (lookup t.id s'.tables.results ≡ some row)
      × (has_attempt operation row.attempts ≡ true)
unfolding begin_redelivery save_receipts update_tables
begin_redelivery-recorded w owner id operation_id s {s'} {r} {b} h =
    elim (Option-cases (w.lib.parse_uuid operation_id)) [
      | inl n ↦ absurd (ground arith)
      | inr (operation, parsed) ↦ elim (Option-cases (find_task_locked s.index owner id)) [
        | inl n ↦ absurd (ground arith)
        | inr (t, found) ↦ elim (Fallible-cases (load_result w s.tables t)) [
          | inr (e, bad) ↦ absurd (ground arith)
          | inl (old, loaded) ↦
              let row : lookup t.id s.tables.results ≡ some old =
                load_result-row w s.tables t loaded in
              elim (Bool-cases (has_attempt operation old.attempts)) [
                | inl there ↦ (operation, t, old, parsed, found, ground arith, ground arith, there)
                | inr new ↦
                    let receipt : DeliveryReceipt = record {
                      operation_id = operation;
                      outcome = ambiguous;
                      attempted_at = max w.now old.frozen_at;
                      media_sent = 0;
                      text_sent = false;
                      failure_code = reason_delivery_ambiguous;
                    } in
                    let attempts : List DeliveryReceipt = old.attempts ++ (receipt ∷ []) in
                    let noted : Result = record old {
                      receipt = receipt;
                      attempts = attempts ++ drop (length attempts) old.attempts;
                    } in
                    (
                      operation,
                      t,
                      noted,
                      parsed,
                      found,
                      ground arith,
                      ground (arith, lookup-insert_self t.id noted s.tables.results),
                      has_attempt-extend operation attempts (drop (length attempts) old.attempts) (
                          has_attempt-append operation old.attempts receipt
                            (text_eq_refl operation)),
                    )
              ]
        ]
      ]
    ]

begin_redelivery-repeat :
    (w : World) (owner id operation_id operation : Text) (t : Task) (row : Result) (s : Store)
    {s' : Store} {r : Result} {b : Bool}
    → w.lib.parse_uuid operation_id ≡ some operation
    → find_task_locked s.index owner id ≡ some t
    → lookup t.id s.tables.results ≡ some row
    → has_attempt operation row.attempts ≡ true
    → begin_redelivery w owner id operation_id s ≡ (s', ok (r, b))
    → (s' ≡ s) × (b ≡ true)
unfolding begin_redelivery
begin_redelivery-repeat w owner id operation_id operation t row s {s'} {r} {b} parsed found there
      has h =
    elim (Fallible-cases (load_result w s.tables t)) [
      | inr (e, bad) ↦ absurd (ground arith)
      | inl (old, loaded) ↦
          let same : old ≡ row = ground (arith, load_result-row w s.tables t loaded) in
          (ground arith, ground arith)
    ]

-- A redelivery that begins is on record before it is sent: a second beginning of the same operation
-- on the store that it leaves, at any later time and under the same libraries, changes nothing, and
-- if it returns a result it marks the operation as one that was begun before.
pub begin_redelivery-once :
    (w later : World) (owner id operation_id : Text) (s : Store) {s' s'' : Store} {r r' : Result}
    {b b' : Bool}
    → later.lib.parse_uuid operation_id ≡ w.lib.parse_uuid operation_id
    → begin_redelivery w owner id operation_id s ≡ (s', ok (r, b))
    → begin_redelivery later owner id operation_id s' ≡ (s'', ok (r', b'))
    → (s'' ≡ s') × (b' ≡ true)
begin_redelivery-once w later owner id operation_id s {s'} {s''} {r} {r'} {b} {b'} same h h' =
    let (operation, t, row, parsed, found, index, there, has) =
      begin_redelivery-recorded w owner id operation_id s h in
    begin_redelivery-repeat later owner id operation_id operation t row s' (same ∙ parsed)
      (ap (λ (i : Index). find_task_locked i owner id) index ∙ found) there has h'

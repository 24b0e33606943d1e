-- ===== src/Target/Bindings.antt =====
-- core/target/store.go: what a binding and a capture leave for the later calls.
use codex_link_clawbot.Prelude.{
  if◌then◌else◌, Bool-cases, Option-cases, Fallible, ok, err, ◌≡◌, ◌⊎◌, inl, inr, true, ◌&&◌,
  Option, none, some, [], arith,
}
use codex_link_clawbot.Text.{Text, text_eq, text_eq_iff, is_empty}
use codex_link_clawbot.Map.{Map, lookup, insert, lookup-insert, lookup-insert_self}
use codex_link_clawbot.Target.{
  owner_of, intent_in, resolve, commit_targets, answer, select_intent, new_intent, capture,
  bind_intent, bind, Intent, OwnerState, TargetError, Targets, TargetWorld,
}
use codex_link_clawbot.Target.Moves.{commit_targets-ok}

answer-ok :
    {A : Type 0} (s : Targets) (a : A) (m : Fallible TargetError Targets) {s' : Targets} {b : A}
    → answer s a m ≡ (s', ok b)
    → (m ≡ ok s') × (a ≡ b)
answer-ok s a (ok x) h = (ground arith, ground arith)
answer-ok s a (err e) h = absurd (ground arith)

-- Where an owner writes to: the workspace and the intents that are current.
abbrev pub selection_of : Text → Targets → Option (Text × Map Text)
selection_of owner s = elim (lookup owner s.owners) [
  | none ↦ none
  | some o ↦ some (o.workspace_id, o.current)
]

bind-ok :
    (w : TargetWorld) (owner id thread : Text) (s : Targets) {s' : Targets}
    → bind w owner id thread s ≡ (s', ok tt)
    → (o : OwnerState) × (i : Intent) × (lookup owner s.owners ≡ some o)
      × (lookup id o.intents ≡ some i)
      × (is_empty i.thread_id ≡ true ⊎ i.thread_id ≡ thread)
      × (s'.owners ≡ insert owner (bind_intent i id thread o) s.owners)
unfolding bind
bind-ok w owner id thread s {s'} h = elim (Option-cases (lookup owner s.owners)) [
  | inl n ↦ absurd (ground arith)
  | inr (o, there) ↦ elim (Option-cases (lookup id o.intents)) [
    | inl n ↦ absurd (ground arith)
    | inr (i, known) ↦
        let next : Map OwnerState = insert owner (bind_intent i id thread o) s.owners in
        elim (Bool-cases (is_empty i.thread_id)) [
          | inl fresh ↦ (
            o,
            i,
            there,
            known,
            inl fresh,
            ground (
              arith,
              commit_targets-ok w next s {s' = s'},
              answer-ok s tt (commit_targets w next s) {s' = s'} {b = tt},
            ),
          )
          | inr bound ↦ (
            o,
            i,
            there,
            known,
            inr (ground (arith, text_eq_iff i.thread_id thread)),
            ground (
              arith,
              commit_targets-ok w next s {s' = s'},
              answer-ok s tt (commit_targets w next s) {s' = s'} {b = tt},
            ),
          )
        ]
  ]
]

-- A binding that ends well resolves the one intent to its thread, which stays the thread that the
-- intent had, if it had one; every other intent resolves as before, and no owner's current
-- workspace or target moves.
pub bind-resolve :
    (w : TargetWorld) (owner id thread : Text) (s : Targets) (owner' id' : Text) {s' : Targets}
    → bind w owner id thread s ≡ (s', ok tt)
    → (i : Intent) × (resolve owner id s ≡ ok i)
      × ((is_empty i.thread_id ≡ true) ⊎ (i.thread_id ≡ thread))
      × (resolve owner' id' s' ≡ (
          if text_eq owner owner' && text_eq id id'
          then ok (record i { thread_id = thread })
          else resolve owner' id' s))
      × (selection_of owner' s' ≡ selection_of owner' s)
unfolding resolve
bind-resolve w owner id thread s owner' id' {s'} h =
    let (o, i, there, known, free, same) = bind-ok w owner id thread s h in
    (
      i,
      ground (arith, there, known),
      free,
      ground (
        arith,
        there,
        known,
        same,
        text_eq_iff owner owner',
        lookup-insert owner owner' (bind_intent i id thread o) s.owners,
        lookup-insert id id' (record i { thread_id = thread }) o.intents,
      ),
      ground (
        arith,
        there,
        same,
        text_eq_iff owner owner',
        lookup-insert owner owner' (bind_intent i id thread o) s.owners,
      ),
    )

-- Messages that follow each other go to one target: a capture after a capture that ended well
-- answers the same intent and changes nothing, whatever SQLite and the new UUIDs are then.
pub capture-once :
    (w later : TargetWorld) (owner : Text) (s : Targets) {s' : Targets} {i : Intent}
    → capture w owner s ≡ (s', ok i)
    → capture later owner s' ≡ (s', ok i)
unfolding capture intent_in owner_of
capture-once w later owner s {s'} {i} h =
    let o : OwnerState = owner_of owner s in
    let fresh : Intent = new_intent w o.workspace_id [] in
    let moved : OwnerState = select_intent fresh o.workspace_id o in
    let next : Map OwnerState = insert owner moved s.owners in
    elim (Option-cases (intent_in o.workspace_id o)) [
      | inr (x, known) ↦ ground arith
      | inl n ↦
          let (done, same) =
            answer-ok s fresh (commit_targets w next s) {s' = s'} {b = i} (ground arith) in
          ground (
            arith,
            same,
            commit_targets-ok w next s done,
            lookup-insert_self owner moved s.owners,
            lookup-insert_self o.workspace_id fresh.id o.current,
            lookup-insert_self fresh.id fresh o.intents,
          )
    ]

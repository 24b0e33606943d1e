-- ===== src/Request/Index/Follow.antt =====
-- core/request/model.go: the validation of an index after a change of one owner's tasks.
use codex_link_clawbot.Prelude.{
  Bool-cases, >>=-eq-ok, Fallible-cases, ok, length, suc, ◌≡◌, refl, sym, ap, subst, inl, inr, true,
  ◌&&◌, ◌||◌, some, List, [], ◌∷◌, arith,
}
use codex_link_clawbot.Text.{Text, text_eq, text_eq_iff}
use codex_link_clawbot.Map.{Map, lookup, insert}
use codex_link_clawbot.Request.Types.{Task, Index}
use codex_link_clawbot.Request.Valid.{validate_task}
use codex_link_clawbot.Request.Index.{
  task_session, is_active, member, nothing_seen, see, scan_task, scan_tasks, scan_owners,
  validate_index, find_task, replace_task, Seen,
}

-- `new` may stand in the place of `old` in a valid index.
pub record Follows (owner : Text) (new old : Task) : Type 0 where
  pub same_id : new.id ≡ old.id
  pub same_source : new.source_message_key ≡ old.source_message_key
  pub same_session : task_session new ≡ task_session old
  pub activity : is_active new.state ≡ true → is_active old.state ≡ true
  pub validity : validate_task old owner ≡ ok tt → validate_task new owner ≡ ok tt

pub Follows-refl : (owner : Text) (t : Task) → Follows owner t t
Follows-refl owner t = record {
  same_id = refl;
  same_source = refl;
  same_session = refl;
  activity = λ h. h;
  validity = λ h. h;
}

abbrev pub AllFollow : Text → List Task → List Task → Type 0
AllFollow owner [] [] = Unit {0}
AllFollow owner [] (t ∷ ts) = ⊥
AllFollow owner (t ∷ ts) [] = ⊥
AllFollow owner (t ∷ ts) (u ∷ us) = Follows owner t u × AllFollow owner ts us

pub AllFollow-refl : (owner : Text) (ts : List Task) → AllFollow owner ts ts
AllFollow-refl owner [] = tt
AllFollow-refl owner (t ∷ ts) = (Follows-refl owner t, AllFollow-refl owner ts)

pub AllFollow-replace_task :
    (owner id : Text) (new old : Task) (ts : List Task)
    → find_task id ts ≡ some old
    → Follows owner new old
    → AllFollow owner (replace_task id new ts) ts
unfolding find_task replace_task
AllFollow-replace_task owner id new old [] h f = cc
AllFollow-replace_task owner id new old (t ∷ ts) h f = elim (Bool-cases (text_eq t.id id)) [
  | inl e ↦
      let same : t ≡ old = ground arith in
      rw e (subst (Follows owner new) (sym same) f, AllFollow-refl owner ts)
  | inr e ↦ rw e (Follows-refl owner t, AllFollow-replace_task owner id new old ts (ground arith) f)
]

length-AllFollow :
    (owner : Text) (ts us : List Task) → AllFollow owner ts us → length ts ≡ length us
length-AllFollow owner [] [] f = refl
length-AllFollow owner [] (u ∷ us) f = absurd f
length-AllFollow owner (t ∷ ts) [] f = absurd f
length-AllFollow owner (t ∷ ts) (u ∷ us) f = ap suc (length-AllFollow owner ts us f.1)

abbrev pub OwnersFollow : Map (List Task) → Map (List Task) → Type 0
OwnersFollow [] [] = Unit {0}
OwnersFollow [] (e ∷ m) = ⊥
OwnersFollow (e ∷ m) [] = ⊥
OwnersFollow ((o, ts) ∷ m) ((p, us) ∷ n) = (o ≡ p) × AllFollow o ts us × OwnersFollow m n

OwnersFollow-refl : (m : Map (List Task)) → OwnersFollow m m
OwnersFollow-refl [] = tt
OwnersFollow-refl ((o, ts) ∷ m) = (refl, AllFollow-refl o ts, OwnersFollow-refl m)

pub OwnersFollow-insert :
    (owner : Text) (new old : List Task) (m : Map (List Task))
    → lookup owner m ≡ some old
    → AllFollow owner new old
    → OwnersFollow (insert owner new m) m
unfolding lookup insert
OwnersFollow-insert owner new old [] h f = cc
OwnersFollow-insert owner new old ((o, ts) ∷ m) h f = elim (Bool-cases (text_eq o owner)) [
  | inl e ↦
      let same : o ≡ owner = (text_eq_iff o owner).0 e in
      let here : ts ≡ old = ground arith in
      rw e (sym same, subst (AllFollow owner new) (sym here) f, OwnersFollow-refl m)
  | inr e ↦ rw e (refl, AllFollow-refl o ts, OwnersFollow-insert owner new old m (ground arith) f)
]

-- What one scan has seen is no more than what the other has.
record Within (a b : Seen) : Type 0 where
  ids : a.ids ≡ b.ids
  sources : a.sources ≡ b.sources
  sessions : (k : Text) → member k a.sessions ≡ true → member k b.sessions ≡ true

see-sessions :
    (k : Text) (seen : Seen) (t : Task)
    → member k (see seen t).sessions
      ≡ ((is_active t.state && text_eq (task_session t) k) || member k seen.sessions)
unfolding member
see-sessions k seen t = ground arith

see-Within :
    (owner : Text) (a b : Seen) (new old : Task)
    → Within a b
    → Follows owner new old
    → Within (see a new) (see b old)
see-Within owner a b new old w f = record {
  ids = cc (f.same_id, w.ids);
  sources = cc (f.same_source, w.sources);
  sessions = λ k h. ground (
    arith,
    h,
    see-sessions k a new,
    see-sessions k b old,
    f.same_session,
    f.activity,
    w.sessions k,
  );
}

scan_task-see :
    (owner : Text) (seen later : Seen) (t : Task)
    → scan_task owner seen t ≡ ok later
    → later ≡ see seen t
unfolding scan_task
scan_task-see owner seen later t h = ground arith

scan_task-Follows :
    (owner : Text) (a b later : Seen) (new old : Task)
    → Within a b
    → Follows owner new old
    → scan_task owner b old ≡ ok later
    → scan_task owner a new ≡ ok (see a new)
unfolding scan_task
scan_task-Follows owner a b later new old w f h = ground (
  arith,
  w.ids,
  w.sources,
  f.same_id,
  f.same_source,
  f.same_session,
  f.activity,
  f.validity,
  w.sessions (task_session new),
)

scan_tasks-AllFollow :
    (owner : Text) (a b later : Seen) (news olds : List Task)
    → Within a b
    → AllFollow owner news olds
    → scan_tasks owner b olds ≡ ok later
    → (out : Seen) × (scan_tasks owner a news ≡ ok out) × Within out later
unfolding scan_tasks
scan_tasks-AllFollow owner a b later [] [] w f h = (a, refl, subst (Within a) (ground arith) w)
scan_tasks-AllFollow owner a b later [] (u ∷ us) w f h = absurd f
scan_tasks-AllFollow owner a b later (t ∷ ts) [] w f h = absurd f
scan_tasks-AllFollow owner a b later (t ∷ ts) (u ∷ us) w f h =
    let (mid, first, rest) = >>=-eq-ok (scan_task owner b u) (λ x. scan_tasks owner x us) h in
    let seen = scan_task-see owner b mid u first in
    let (out, run, within) =
      scan_tasks-AllFollow owner (see a t) (see b u) later ts us (see-Within owner a b t u w f.0)
        f.1 (rw seen at rest) in
    (out, rw (scan_task-Follows owner a b mid t u w f.0 first) run, within)

scan_owners-OwnersFollow :
    (a b later : Seen) (news olds : Map (List Task))
    → Within a b
    → OwnersFollow news olds
    → scan_owners b olds ≡ ok later
    → (out : Seen) × (scan_owners a news ≡ ok out) × Within out later
unfolding scan_owners
scan_owners-OwnersFollow a b later [] [] w f h = (a, refl, subst (Within a) (ground arith) w)
scan_owners-OwnersFollow a b later [] (u ∷ us) w f h = absurd f
scan_owners-OwnersFollow a b later (t ∷ ts) [] w f h = absurd f
scan_owners-OwnersFollow a b later ((o, ts) ∷ m) ((p, us) ∷ n) w f h =
    elim (Fallible-cases (scan_tasks p b us)) [
      | inr (e, bad) ↦ absurd (ground arith)
      | inl (mid, run) ↦
          let (out1, run1, w1) =
            scan_tasks-AllFollow p a b mid ts us w (subst (λ x. AllFollow x ts us) f.0 f.1) run in
          let rest : scan_owners mid n ≡ ok later = ground arith in
          let (out, run2, w2) = scan_owners-OwnersFollow out1 mid later m n w1 f.2 rest in
          let tasks : scan_tasks o a ts ≡ ok out1 = cc (f.0, run1) in
          (out, ground (arith, f.0, length-AllFollow o ts us f.1, tasks, run2), w2)
    ]

Within-refl : (a : Seen) → Within a a
Within-refl a = record { ids = refl; sources = refl; sessions = λ k h. h }

-- An index whose owners follow those of a valid index is valid.
pub validate_index-OwnersFollow :
    (i : Index) (owners : Map (List Task))
    → OwnersFollow owners i.owners
    → validate_index i ≡ ok tt
    → validate_index (record i { owners = owners }) ≡ ok tt
unfolding validate_index
validate_index-OwnersFollow i owners f h =
    elim (Fallible-cases (scan_owners nothing_seen i.owners)) [
      | inr (e, bad) ↦ absurd (ground arith)
      | inl (seen, run) ↦
          let (out, run', w) =
            scan_owners-OwnersFollow nothing_seen nothing_seen seen owners i.owners
              (Within-refl nothing_seen) f run in
          ground (arith, run, run', w.sources)
    ]

-- ===== src/Preference/Saved.antt =====
-- core/preference/store.go: what an owner has after a change, and after a restart.
use codex_link_clawbot.Prelude.{
  if◌then◌else◌, Option-cases, Fallible-cases, ok, err, ◌≡◌, refl, inl, inr, Bool, none, some, [],
  ◌∷◌, arith,
}
use codex_link_clawbot.Text.{Text, text_eq, text_eq_iff, text_eq_refl, trim_space}
use codex_link_clawbot.Map.{
  Map, lookup, insert, get_or, lookup-insert, insert-restore, delete-restore, HasDistinctKeys,
  insert-HasDistinctKeys, Agrees,
}
use codex_link_clawbot.Presentation.{Style}
use codex_link_clawbot.Preference.{
  validate_preferences, default_preferences, get_preferences, put_rows, save_preferences,
  with_preferences, update_preferences, save_style, OwnerPreferences, PreferenceError, Preferences,
}

save_preferences-ok :
    (commit : Bool) (s : Preferences) {s' : Preferences}
    → save_preferences commit s ≡ ok s'
    → (validate_preferences s ≡ ok tt) × (s' ≡ record s { rows = put_rows s.owners s.rows })
unfolding save_preferences
save_preferences-ok commit s h = elim (Fallible-cases (validate_preferences s)) [
  | inr (e, bad) ↦ absurd (ground arith)
  | inl (tt, good) ↦ (good, ground arith)
]

update_preferences-ok :
    (commit : Bool) (raw : Text) (change : OwnerPreferences → OwnerPreferences) (s : Preferences)
    {s' : Preferences}
    → update_preferences commit raw change s ≡ (s', ok tt)
    → (s'.owners
        ≡ insert
            (trim_space raw)
            (change (get_or (trim_space raw) default_preferences s.owners))
            s.owners)
      × (s'.rows ≡ put_rows s'.owners s.rows)
unfolding update_preferences
update_preferences-ok commit raw change s {s'} h =
    let o : Text = trim_space raw in
    let changed : Preferences =
      with_preferences (insert o (change (get_or o default_preferences s.owners)) s.owners) s in
    elim (Fallible-cases (save_preferences commit changed)) [
      | inr (e, bad) ↦ absurd (ground arith)
      | inl (saved, save) ↦
          let (good, same) = save_preferences-ok commit changed save in
          (ground (arith, same), ground (arith, same))
    ]

-- A change that ends well changes the trimmed owner's preferences as it says, and nobody else's.
pub update_preferences-get :
    (commit : Bool) (raw owner : Text) (change : OwnerPreferences → OwnerPreferences)
    (s : Preferences) {s' : Preferences}
    → update_preferences commit raw change s ≡ (s', ok tt)
    → get_preferences owner s' ≡ (
        if text_eq (trim_space raw) (trim_space owner)
        then change (get_preferences raw s)
        else get_preferences owner s)
unfolding get_preferences
update_preferences-get commit raw owner change s {s'} h =
    let (owners, rows) = update_preferences-ok commit raw change s h in
    ground (
      arith,
      owners,
      lookup-insert (trim_space raw) (trim_space owner)
          (change (get_or (trim_space raw) default_preferences s.owners)) s.owners,
    )

-- A style that is saved is what the owner gets then, and the response mode stays as it was.
pub save_style-get :
    (commit : Bool) (owner : Text) (style : Style) (s : Preferences) {s' : Preferences}
    → save_style commit owner style s ≡ (s', ok tt)
    → ((get_preferences owner s').style ≡ style)
      × ((get_preferences owner s').response_mode ≡ (get_preferences owner s).response_mode)
unfolding save_style
save_style-get commit owner style s {s'} h =
    let all_of =
      update_preferences-get commit owner owner (λ p. record p { style = style }) s {s' = s'}
        (ground arith) in
    (
      ground (arith, text_eq_refl (trim_space owner), all_of),
      ground (arith, text_eq_refl (trim_space owner), all_of),
    )

-- A change that fails leaves the preferences as they were.
pub update_preferences-atomic :
    (commit : Bool) (raw : Text) (change : OwnerPreferences → OwnerPreferences) (s : Preferences)
    {s' : Preferences} {e : PreferenceError}
    → update_preferences commit raw change s ≡ (s', err e)
    → s' ≡ s
unfolding update_preferences
update_preferences-atomic commit raw change s {s'} {e} h =
    let o : Text = trim_space raw in
    let new : OwnerPreferences = change (get_or o default_preferences s.owners) in
    elim (Option-cases (lookup o s.owners)) [
      | inl n ↦ ground (arith, delete-restore o new s.owners)
      | inr (old, there) ↦ ground (arith, insert-restore o old new s.owners)
    ]

lookup-put_rows :
    (k : Text) (m rows : Map OwnerPreferences)
    → HasDistinctKeys m
    → lookup k (put_rows m rows) ≡ (elim (lookup k m) [ none ↦ lookup k rows | some p ↦ some p ])
unfolding put_rows lookup
lookup-put_rows k [] rows d = refl
lookup-put_rows k ((j, p) ∷ m) rows d =
    ground
      (arith, text_eq_iff j k, lookup-put_rows k m (insert j p rows) d.1, lookup-insert j k p rows)

-- A change that ends well keeps SQLite's rows equal to the preferences in memory, so that a restart
-- loads them again, where they were equal before and no owner has two entries.
pub update_preferences-Agrees :
    (commit : Bool) (raw : Text) (change : OwnerPreferences → OwnerPreferences) (s : Preferences)
    {s' : Preferences}
    → HasDistinctKeys s.owners
    → Agrees s.rows s.owners
    → update_preferences commit raw change s ≡ (s', ok tt)
    → Agrees s'.rows s'.owners
update_preferences-Agrees commit raw change s {s'} d agree h k =
    let (owners, rows) = update_preferences-ok commit raw change s h in
    let new : OwnerPreferences = change (get_or (trim_space raw) default_preferences s.owners) in
    let next : Map OwnerPreferences = insert (trim_space raw) new s.owners in
    ground (
      arith,
      owners,
      rows,
      agree k,
      lookup-insert (trim_space raw) k new s.owners,
      lookup-put_rows k next s.rows (insert-HasDistinctKeys (trim_space raw) new s.owners d),
    )

-- ===== src/Preference.antt =====
-- core/preference/store.go: the style and the response mode that an owner has chosen.
use codex_link_clawbot.Prelude.{
  ◌==◌, if◌then◌else◌, ◌>>=◌, ◌>>◌, reject_if, Fallible, ok, err, any, ℕ, Bool, ◌||◌, not, none,
  some, [], ◌∷◌,
}
use codex_link_clawbot.Text.{Text, is_empty, trim_space}
use codex_link_clawbot.Map.{Map, lookup, insert, delete, get_or}
use codex_link_clawbot.Presentation.{
  valid_mode, valid_style, default_style, ResponseMode, plain, Style,
}
pub mod Saved

pub record OwnerPreferences : Type 0 where
  pub style : Style
  pub response_mode : ResponseMode

pub data PreferenceError : Type 0 where
  style_required mode_required preference_owner_required invalid_preferences_schema :
      PreferenceError
  invalid_owner_preferences preferences_not_saved : PreferenceError

-- `Store`, with the rows of `preferences`.
pub record Preferences : Type 0 where
  pub version : ℕ
  pub owners : Map OwnerPreferences
  pub rows : Map OwnerPreferences

-- `validateState`
unfoldable pub validate_preferences : Preferences → Fallible PreferenceError (Unit {0})
validate_preferences s = do
  reject_if (not (s.version == 1)) invalid_preferences_schema
  reject_if
      (any
        (λ e.
          is_empty (trim_space e.0)
          || not (valid_style e.1.style)
          || not (valid_mode e.1.response_mode))
        s.owners)
      invalid_owner_preferences
  ok tt

-- `DefaultOwnerPreferences`
unfoldable pub default_preferences : OwnerPreferences
default_preferences = record { style = default_style; response_mode = plain }

-- `NewStore`, on the rows that it reads.
unfoldable pub load_preferences : Map OwnerPreferences → Fallible PreferenceError Preferences
unfolding validate_preferences
load_preferences rows =
    let s : Preferences = record { version = 1; owners = rows; rows = rows } in
    validate_preferences s >>= λ u. ok s

-- `Get`
unfoldable pub get_preferences : Text → Preferences → OwnerPreferences
unfolding default_preferences
get_preferences owner s = get_or (trim_space owner) default_preferences s.owners

-- The loop that puts the rows.
unfoldable pub put_rows : Map OwnerPreferences → Map OwnerPreferences → Map OwnerPreferences
put_rows [] rows = rows
put_rows ((owner, p) ∷ m) rows = put_rows m (insert owner p rows)

-- `saveLocked`
unfoldable pub save_preferences : Bool → Preferences → Fallible PreferenceError Preferences
unfolding validate_preferences put_rows
save_preferences commit s = do
  validate_preferences s
  if commit then ok (record s { rows = put_rows s.owners s.rows }) else err preferences_not_saved

abbrev pub with_preferences : Map OwnerPreferences → Preferences → Preferences
with_preferences owners s = record s { owners = owners }

-- `update`: the change in memory goes back when the save fails.
unfoldable pub update_preferences :
    Bool
    → Text
    → (OwnerPreferences → OwnerPreferences)
    → Preferences
    → Preferences × Fallible PreferenceError (Unit {0})
unfolding save_preferences default_preferences
update_preferences commit raw change s =
    let owner = trim_space raw in
    let changed =
      with_preferences (insert owner (change (get_or owner default_preferences s.owners)) s.owners)
        s in
    if is_empty owner
    then (s, err preference_owner_required)
    else elim (save_preferences commit changed) [
      | ok saved ↦ (saved, ok tt)
      | err e ↦ (
        with_preferences
            (elim (lookup owner s.owners) [
              | some previous ↦ insert owner previous changed.owners
              | none ↦ delete owner changed.owners
            ])
            changed,
        err e,
      )
    ]

-- `SetStyle`
unfoldable pub save_style :
    Bool → Text → Style → Preferences → Preferences × Fallible PreferenceError (Unit {0})
unfolding update_preferences
save_style commit owner style s =
    if not (valid_style style)
    then (s, err style_required)
    else update_preferences commit owner (λ p. record p { style = style }) s

-- `SetResponseMode`
unfoldable pub save_mode :
    Bool → Text → ResponseMode → Preferences → Preferences × Fallible PreferenceError (Unit {0})
unfolding update_preferences
save_mode commit owner mode s =
    if not (valid_mode mode)
    then (s, err mode_required)
    else update_preferences commit owner (λ p. record p { response_mode = mode }) s

-- `Save`
unfoldable pub save_both :
    Bool → Text → OwnerPreferences → Preferences → Preferences × Fallible PreferenceError (Unit {0})
unfolding update_preferences
save_both commit owner next s =
    if not (valid_mode next.response_mode) || not (valid_style next.style)
    then (s, err invalid_owner_preferences)
    else update_preferences commit owner (λ p. next) s

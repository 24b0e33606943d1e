-- ===== src/Presentation/Drives.antt =====
-- core/presentation/text.go: an activity that is shown, against the paths of Windows too.
use codex_link_clawbot.Prelude.{
  ◌==◌, Bool-cases, ℕ, zero, suc, ◌-◌, ◌≡◌, refl, inl, inr, Bool, true, false, ◌&&◌, ◌||◌, not, [],
  ◌∷◌, ◌++◌, arith,
}
use codex_link_clawbot.Text.{Text, is_space, trim_left, is_lower}
use codex_link_clawbot.Presentation.Lines.{space, squeeze_after, squeeze}
use codex_link_clawbot.Presentation.Activity.{
  is_stop, fold_case, url_length, unix_path_length, windows_path_length, replace_from, link_mark,
  path_mark, sanitize_activity, starts_run, is_pathless, run_length-starts_run, slash_is_no_stop,
}
use codex_link_clawbot.Presentation.Shown.{squeeze_after-no_run, sanitize_activity-IsPathless}

unfoldable pub starts_separator : Text → Bool
unfolding starts_run
starts_separator [] = false
starts_separator (c ∷ s) = (c == b'/' || c == b'\\') && starts_run s

unfoldable pub starts_drive : Text → Bool
unfolding starts_separator
starts_drive [] = false
starts_drive (c ∷ s) = c == b':' && starts_separator s

-- No letter, of either case, has a colon, a slash of either kind and a rune of a path after it.
unfoldable pub is_driveless : Text → Bool
unfolding fold_case is_lower starts_drive
is_driveless [] = true
is_driveless (c ∷ s) = not (is_lower (fold_case c) && starts_drive s) && is_driveless s

cons-IsDriveless :
    (c : ℕ) (s : Text)
    → (is_lower (fold_case c) && starts_drive s) ≡ false
    → is_driveless s ≡ true
    → is_driveless (c ∷ s) ≡ true
unfolding is_driveless
cons-IsDriveless c s n h = rw n h

mark-IsDriveless : (s : Text) → is_driveless s ≡ true → is_driveless (path_mark ++ s) ≡ true
unfolding is_driveless
mark-IsDriveless s h = h

-- Matches of a kind that never begins at a rune that ends a path.
module _ (found : Text → ℕ)
    (never : (c : ℕ) (s : Text) → is_stop c ≡ true → found (c ∷ s) ≡ 0) where
  replaced-no_run :
      (s : Text) → starts_run s ≡ false → starts_run (replace_from found path_mark 0 s) ≡ false
  unfolding replace_from starts_run
  replaced-no_run [] h = refl
  replaced-no_run (c ∷ s) h = ground (arith, never c s)

  replaced-no_separator :
      (s : Text)
      → starts_separator s ≡ false
      → starts_separator (replace_from found path_mark 0 s) ≡ false
  unfolding replace_from starts_separator
  replaced-no_separator [] h = refl
  replaced-no_separator (c ∷ s) h = ground (arith, replaced-no_run s)

  replaced-no_drive :
      (s : Text) → starts_drive s ≡ false → starts_drive (replace_from found path_mark 0 s) ≡ false
  unfolding replace_from starts_drive
  replaced-no_drive [] h = refl
  replaced-no_drive (c ∷ s) h = ground (arith, replaced-no_separator s)

  kept-IsDriveless :
      (c : ℕ) (s : Text)
      → (is_lower (fold_case c) && starts_drive s) ≡ false
      → is_driveless (replace_from found path_mark 0 s) ≡ true
      → is_driveless (c ∷ replace_from found path_mark 0 s) ≡ true
  kept-IsDriveless c s n h =
      cons-IsDriveless c (replace_from found path_mark 0 s) (ground (arith, replaced-no_drive s)) h

  -- Where no match begins, no path begins: none is left in the text.
  pub replaced-IsDriveless :
      (Clear : Text → Type 0)
      → ((c : ℕ) (s : Text)
          → Clear (c ∷ s)
          → Clear s
            × ((found (c ∷ s) == 0) ≡ true → (is_lower (fold_case c) && starts_drive s) ≡ false))
      → (skip : ℕ) (s : Text) → Clear s
      → is_driveless (replace_from found path_mark skip s) ≡ true
  unfolding replace_from is_driveless
  replaced-IsDriveless Clear step skip [] h = refl
  replaced-IsDriveless Clear step (suc skip) (c ∷ s) h =
      replaced-IsDriveless Clear step skip s (step c s h).0
  replaced-IsDriveless Clear step zero (c ∷ s) h = elim (Bool-cases (found (c ∷ s) == 0)) [
    | inl none_here ↦ rw none_here (
        kept-IsDriveless c s ((step c s h).1 none_here)
          (replaced-IsDriveless Clear step 0 s (step c s h).0))
    | inr here ↦ rw here (
        mark-IsDriveless (replace_from found path_mark (found (c ∷ s) - 1) s)
          (replaced-IsDriveless Clear step (found (c ∷ s) - 1) s (step c s h).0))
  ]

stop_is_no_letter : (c : ℕ) → is_stop c ≡ true → is_lower (fold_case c) ≡ false
unfolding is_stop fold_case is_lower
stop_is_no_letter c h = ground arith

windows-never : (c : ℕ) (s : Text) → is_stop c ≡ true → windows_path_length (c ∷ s) ≡ 0
unfolding windows_path_length
windows-never c [] h = refl
windows-never c (b ∷ []) h = refl
windows-never c (b ∷ d ∷ s) h = ground (arith, stop_is_no_letter c)

windows-unmatched :
    (c : ℕ) (s : Text)
    → (windows_path_length (c ∷ s) == 0) ≡ true
    → (is_lower (fold_case c) && starts_drive s) ≡ false
unfolding windows_path_length starts_drive
windows-unmatched c [] h = ground arith
windows-unmatched c (b ∷ []) h = ground arith
windows-unmatched c (b ∷ d ∷ s) h = ground (arith, run_length-starts_run s)

unix-never : (c : ℕ) (s : Text) → is_stop c ≡ true → unix_path_length (c ∷ s) ≡ 0
unfolding unix_path_length
unix-never c s h = ground (arith, slash_is_no_stop c)

driveless_tail :
    (c : ℕ) (s : Text)
    → is_driveless (c ∷ s) ≡ true
    → (is_driveless s ≡ true) × ((is_lower (fold_case c) && starts_drive s) ≡ false)
unfolding is_driveless
driveless_tail c s h = (ground arith, ground arith)

pending-no_separator : (s : Text) → starts_separator (squeeze_after true s) ≡ false
unfolding squeeze_after starts_separator
pending-no_separator [] = refl
pending-no_separator (c ∷ s) = ground (arith, pending-no_separator s)

pending-no_drive : (s : Text) → starts_drive (squeeze_after true s) ≡ false
unfolding squeeze_after starts_drive
pending-no_drive [] = refl
pending-no_drive (c ∷ s) = ground (arith, pending-no_drive s)

squeeze_after-no_separator :
    (s : Text) → starts_separator s ≡ false → starts_separator (squeeze_after false s) ≡ false
unfolding squeeze_after starts_separator
squeeze_after-no_separator [] h = refl
squeeze_after-no_separator (c ∷ s) h = elim (Bool-cases (is_space c)) [
  | inl y ↦ rw y (pending-no_separator s)
  | inr n ↦ rw n (ground (arith, squeeze_after-no_run s))
]

squeeze_after-no_drive :
    (s : Text) → starts_drive s ≡ false → starts_drive (squeeze_after false s) ≡ false
unfolding squeeze_after starts_drive
squeeze_after-no_drive [] h = refl
squeeze_after-no_drive (c ∷ s) h = elim (Bool-cases (is_space c)) [
  | inl y ↦ rw y (pending-no_drive s)
  | inr n ↦ rw n (ground (arith, squeeze_after-no_separator s))
]

space-IsDriveless : (s : Text) → is_driveless (space ∷ s) ≡ is_driveless s
unfolding is_driveless
space-IsDriveless s = refl

squeeze_after-IsDriveless :
    (pending : Bool) (s : Text)
    → is_driveless s ≡ true
    → is_driveless (squeeze_after pending s) ≡ true
unfolding squeeze_after is_driveless
squeeze_after-IsDriveless pending [] h = refl
squeeze_after-IsDriveless pending (c ∷ s) h =
    let (rest, alone) = driveless_tail c s h in
    let word : is_driveless (c ∷ squeeze_after false s) ≡ true =
      cons-IsDriveless c (squeeze_after false s) (ground (arith, alone, squeeze_after-no_drive s))
        (squeeze_after-IsDriveless false s rest) in
    elim (Bool-cases (is_space c)) [
      | inl y ↦ rw y (squeeze_after-IsDriveless true s rest)
      | inr n ↦ elim (Bool-cases pending) [
        | inl p ↦ rw n (rw p (rw (space-IsDriveless (c ∷ squeeze_after false s)) word))
        | inr p ↦ rw n (rw p word)
      ]
    ]

trim_left-IsDriveless : (s : Text) → is_driveless s ≡ true → is_driveless (trim_left s) ≡ true
unfolding trim_left
trim_left-IsDriveless [] h = h
trim_left-IsDriveless (c ∷ s) h = ground (arith, driveless_tail c s, trim_left-IsDriveless s)

-- Whatever the text, an activity that is shown has no path with a slash and no path with a drive
-- left: no slash of it has a rune of a path after it, and no letter of it has a colon, then a slash
-- or a backslash, and then a rune of a path after it. Spaces, semicolons and the full-width commas,
-- stops, exclamation and question marks are no runes of a path.
pub sanitize_activity-hides_paths :
    (value : Text)
    → (is_pathless (sanitize_activity value) ≡ true)
      × (is_driveless (sanitize_activity value) ≡ true)
unfolding sanitize_activity squeeze
sanitize_activity-hides_paths value =
    let no_links : Text = replace_from url_length link_mark 0 value in
    let no_drives : Text = replace_from windows_path_length path_mark 0 no_links in
    let no_paths : Text = replace_from unix_path_length path_mark 0 no_drives in
    let windows : is_driveless no_drives ≡ true =
      replaced-IsDriveless windows_path_length windows-never (λ s. Unit)
        (λ c s h. (tt, windows-unmatched c s)) 0 no_links tt in
    let unix : is_driveless no_paths ≡ true =
      replaced-IsDriveless unix_path_length unix-never (λ s. (is_driveless s ≡ true))
        (λ c s h. let (rest, alone) = driveless_tail c s h in (rest, (λ e. alone))) 0 no_drives
        windows in
    (
      sanitize_activity-IsPathless value,
      squeeze_after-IsDriveless false (trim_left no_paths) (trim_left-IsDriveless no_paths unix),
    )

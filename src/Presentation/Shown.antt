-- ===== src/Presentation/Shown.antt =====
-- core/presentation/text.go: what a line shows.
use codex_link_clawbot.Prelude.{
  ◌==◌, Bool-cases, length, take, all, length-append, length-take-le, ℕ, zero, suc, ◌-◌, ◌≤◌, ◌≡◌,
  refl, ◌⊎◌, inl, inr, Bool, true, false, ◌||◌, not, [], ◌∷◌, ◌++◌, arith,
}
use codex_link_clawbot.Text.{Text, is_space, trim_left, trim_right, trim_space}
use codex_link_clawbot.Presentation.Lines.{space, ellipsis, squeeze_after, squeeze, normalize_line}
use codex_link_clawbot.Presentation.Activity.{
  is_stop, url_length, unix_path_length, windows_path_length, replace_from, link_mark, path_mark,
  sanitize_activity, starts_run, is_pathless, cons-IsPathless, replaced-IsPathless,
}

squeeze_after-starts_run : (s : Text) → starts_run (squeeze_after true s) ≡ false
unfolding squeeze_after starts_run is_stop
squeeze_after-starts_run [] = refl
squeeze_after-starts_run (c ∷ s) = ground (arith, squeeze_after-starts_run s)

pub squeeze_after-no_run :
    (s : Text) → starts_run s ≡ false → starts_run (squeeze_after false s) ≡ false
unfolding squeeze_after starts_run
squeeze_after-no_run [] h = refl
squeeze_after-no_run (c ∷ s) h = elim (Bool-cases (is_space c)) [
  | inl y ↦ rw y (squeeze_after-starts_run s)
  | inr n ↦ rw n h
]

space-IsPathless : (s : Text) → is_pathless (space ∷ s) ≡ is_pathless s
unfolding is_pathless
space-IsPathless s = refl

tail-IsPathless : (c : ℕ) (s : Text) → is_pathless (c ∷ s) ≡ true → is_pathless s ≡ true
unfolding is_pathless
tail-IsPathless c s h = ground arith

head-cases :
    (c : ℕ) (s : Text) → is_pathless (c ∷ s) ≡ true → (c == b'/') ≡ false ⊎ starts_run s ≡ false
unfolding is_pathless
head-cases c s h = elim (Bool-cases (c == b'/')) [ inr n ↦ inl n | inl y ↦ inr (ground arith) ]

is_pathless_none : is_pathless [] ≡ true
unfolding is_pathless
is_pathless_none = refl

squeeze_after-IsPathless :
    (pending : Bool) (s : Text)
    → is_pathless s ≡ true
    → is_pathless (squeeze_after pending s) ≡ true
unfolding squeeze_after
squeeze_after-IsPathless pending [] h = is_pathless_none
squeeze_after-IsPathless pending (c ∷ s) h =
    let rest = tail-IsPathless c s h in
    let word : is_pathless (c ∷ squeeze_after false s) ≡ true =
      cons-IsPathless c (squeeze_after false s)
        (elim (head-cases c s h) [ inl n ↦ inl n | inr n ↦ inr (squeeze_after-no_run s n) ])
        (squeeze_after-IsPathless false s rest) in
    elim (Bool-cases (is_space c)) [
      | inl y ↦ rw y (squeeze_after-IsPathless true s rest)
      | inr n ↦ elim (Bool-cases pending) [
        | inl p ↦ rw n (rw p (rw (space-IsPathless (c ∷ squeeze_after false s)) word))
        | inr p ↦ rw n (rw p word)
      ]
    ]

trim_left-IsPathless : (s : Text) → is_pathless s ≡ true → is_pathless (trim_left s) ≡ true
unfolding trim_left
trim_left-IsPathless [] h = h
trim_left-IsPathless (c ∷ s) h = ground (arith, tail-IsPathless c s, trim_left-IsPathless s)

-- No slash of an activity that is shown has a rune of a path after it.
pub sanitize_activity-IsPathless : (value : Text) → is_pathless (sanitize_activity value) ≡ true
unfolding sanitize_activity squeeze
sanitize_activity-IsPathless value =
    let no_links : Text = replace_from url_length link_mark 0 value in
    let no_drives : Text = replace_from windows_path_length path_mark 0 no_links in
    let no_paths : Text = replace_from unix_path_length path_mark 0 no_drives in
    squeeze_after-IsPathless false (trim_left no_paths)
      (trim_left-IsPathless no_paths (replaced-IsPathless 0 no_drives))

-- Every space of the text is a plain one: it has no line break.
abbrev pub is_one_line : Text → Bool
is_one_line = all (λ c. not (is_space c) || c == space)

squeeze_after-one_line : (pending : Bool) (s : Text) → is_one_line (squeeze_after pending s) ≡ true
unfolding squeeze_after
squeeze_after-one_line pending [] = refl
squeeze_after-one_line pending (c ∷ s) =
    ground (arith, squeeze_after-one_line true s, squeeze_after-one_line false s)

trim_right-one_line : (s : Text) → is_one_line s ≡ true → is_one_line (trim_right s) ≡ true
unfolding trim_right
trim_right-one_line [] h = refl
trim_right-one_line (c ∷ s) h = ground (arith, trim_right-one_line s)

trim_left-one_line : (s : Text) → is_one_line s ≡ true → is_one_line (trim_left s) ≡ true
unfolding trim_left
trim_left-one_line [] h = refl
trim_left-one_line (c ∷ s) h = ground (arith, trim_left-one_line s)

take-one_line : (n : ℕ) (s : Text) → is_one_line s ≡ true → is_one_line (take n s) ≡ true
take-one_line zero s h = refl
take-one_line (suc n) [] h = refl
take-one_line (suc n) (c ∷ s) h = ground (arith, take-one_line n s)

ellipsis-one_line : (s : Text) → is_one_line s ≡ true → is_one_line (s ++ (ellipsis ∷ [])) ≡ true
unfolding is_space
ellipsis-one_line [] h = refl
ellipsis-one_line (c ∷ s) h = ground (arith, ellipsis-one_line s)

length-trim_right-le : (s : Text) → length (trim_right s) ≤ length s
unfolding trim_right
length-trim_right-le [] = omega arith
length-trim_right-le (c ∷ s) = ground (arith, length-trim_right-le s)

length-trim_left-le : (s : Text) → length (trim_left s) ≤ length s
unfolding trim_left
length-trim_left-le [] = omega arith
length-trim_left-le (c ∷ s) = ground (arith, length-trim_left-le s)

pub length-trim_space-le : (s : Text) → length (trim_space s) ≤ length s
unfolding trim_space
length-trim_space-le s = omega (arith, length-trim_right-le (trim_left s), length-trim_left-le s)

trim_space-one_line : (s : Text) → is_one_line s ≡ true → is_one_line (trim_space s) ≡ true
unfolding trim_space
trim_space-one_line s h = trim_right-one_line (trim_left s) (trim_left-one_line s h)

-- A line has no more runes than its limit, the ellipsis included, and no line break or other space
-- than a plain one.
pub normalize_line-fits :
    (raw : Text) (limit : ℕ)
    → (length (normalize_line raw limit) ≤ limit) × (is_one_line (normalize_line raw limit) ≡ true)
unfolding normalize_line squeeze
normalize_line-fits raw limit =
    let value : Text = squeeze_after false (trim_left (trim_space raw)) in
    let part : Text = take (limit - 1) value in
    let plain = squeeze_after-one_line false (trim_left (trim_space raw)) in
    let part_plain = take-one_line (limit - 1) value plain in
    let trimmed : is_one_line (trim_space part) ≡ true = trim_space-one_line part part_plain in
    let ended = ellipsis-one_line (trim_space part) trimmed in
    (
      ground (
        arith,
        length-trim_space-le part,
        length-take-le (limit - 1) value,
        length-append (trim_space part) (ellipsis ∷ []),
      ),
      ground (arith, plain, ended, ellipsis-one_line [] refl),
    )

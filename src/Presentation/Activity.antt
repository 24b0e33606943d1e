-- ===== src/Presentation/Activity.antt =====
-- core/presentation/text.go: SanitizeActivity, with its three regular expressions.
use codex_link_clawbot.Prelude.{
  leb, ◌==◌, if◌then◌else◌, Bool-cases, length, ℕ, zero, suc, ◌+◌, ◌-◌, ◌≡◌, refl, ◌⊎◌, inl, inr,
  Bool, true, false, ◌&&◌, ◌||◌, not, Option, none, some, [], ◌∷◌, ◌++◌, arith,
}
use codex_link_clawbot.Text.{Text, text, is_lower}
use codex_link_clawbot.Presentation.Lines.{squeeze}

-- `[\s，。！？；;]`
unfoldable pub is_stop : ℕ → Bool
is_stop c =
    c == 9
    || c == 10
    || c == 12
    || c == 13
    || c == 32
    || c == 0xff0c
    || c == 0x3002
    || c == 0xff01
    || c == 0xff1f
    || c == 0xff1b
    || c == b';'

-- `[^\s，。！？；;]+` from here, or 0.
unfoldable pub run_length : Text → ℕ
unfolding is_stop
run_length [] = 0
run_length (c ∷ s) = let rest = run_length s in if is_stop c then 0 else suc rest

-- A letter under `(?i)`; the long s is an s, and the Kelvin sign a k.
unfoldable pub fold_case : ℕ → ℕ
fold_case c =
    if leb b'A' c && leb c b'Z'
    then c + 32
    else if c == 0x17f
    then b's'
    else if c == 0x212a
    then b'k'
    else c

unfoldable pub after_folded : Text → Text → Option Text
unfolding fold_case
after_folded [] s = some s
after_folded (a ∷ p) [] = none
after_folded (a ∷ p) (c ∷ s) = elim (a == fold_case c) [ true ↦ after_folded p s | false ↦ none ]

-- The length of a match of a prefix and a run after it, or 0.
unfoldable pub prefixed_length : Text → Text → ℕ
unfolding after_folded run_length
prefixed_length prefix s = elim (after_folded prefix s) [
  | none ↦ 0
  | some rest ↦ if run_length rest == 0 then 0 else length prefix + run_length rest
]

-- `(?i)https?://[^\s，。！？；;]+`
unfoldable pub url_length : Text → ℕ
unfolding prefixed_length text
url_length s =
    let secure = prefixed_length (text "https://") s in
    if secure == 0 then prefixed_length (text "http://") s else secure

-- `/[^\s，。！？；;]+`
unfoldable pub unix_path_length : Text → ℕ
unfolding run_length
unix_path_length [] = 0
unix_path_length (c ∷ s) = if c == b'/' && not (run_length s == 0) then suc (run_length s) else 0

-- `(?i)[a-z]:[\\/][^\s，。！？；;]+`
unfoldable pub windows_path_length : Text → ℕ
unfolding fold_case is_lower run_length
windows_path_length (a ∷ b ∷ c ∷ s) =
    if is_lower (fold_case a) && b == b':' && (c == b'\\' || c == b'/') && not (run_length s == 0)
    then 3 + run_length s
    else 0
windows_path_length _ = 0

-- `ReplaceAllString`: matches from the left, none within another; the number counts the runes of a
-- match that are left to skip.
unfoldable pub replace_from : (Text → ℕ) → Text → ℕ → Text → Text
replace_from found by skip [] = []
replace_from found by (suc skip) (c ∷ s) = replace_from found by skip s
replace_from found by zero (c ∷ s) =
    let kept = replace_from found by 0 s in
    let replaced = replace_from found by (found (c ∷ s) - 1) s in
    if found (c ∷ s) == 0 then c ∷ kept else by ++ replaced

-- `[链接]` and `[本机路径]`
abbrev pub link_mark : Text
link_mark = 0x5b ∷ 0x94fe ∷ 0x63a5 ∷ 0x5d ∷ []

abbrev pub path_mark : Text
path_mark = 0x5b ∷ 0x672c ∷ 0x673a ∷ 0x8def ∷ 0x5f84 ∷ 0x5d ∷ []

-- `SanitizeActivity`
unfoldable pub sanitize_activity : Text → Text
unfolding replace_from url_length windows_path_length unix_path_length squeeze
sanitize_activity value =
    let no_links = replace_from url_length link_mark 0 value in
    let no_drives = replace_from windows_path_length path_mark 0 no_links in
    squeeze (replace_from unix_path_length path_mark 0 no_drives)

unfoldable pub starts_run : Text → Bool
unfolding is_stop
starts_run [] = false
starts_run (c ∷ s) = not (is_stop c)

-- No slash has a rune of a path after it.
unfoldable pub is_pathless : Text → Bool
unfolding starts_run
is_pathless [] = true
is_pathless (c ∷ s) = not (c == b'/' && starts_run s) && is_pathless s

pub run_length-starts_run : (s : Text) → (run_length s == 0) ≡ not (starts_run s)
unfolding run_length starts_run
run_length-starts_run [] = refl
run_length-starts_run (c ∷ s) = ground arith

pub slash_is_no_stop : (c : ℕ) → is_stop c ≡ true → (c == b'/') ≡ false
unfolding is_stop
slash_is_no_stop c h = ground arith

replaced-starts_run :
    (s : Text)
    → starts_run s ≡ false
    → starts_run (replace_from unix_path_length path_mark 0 s) ≡ false
unfolding replace_from unix_path_length starts_run
replaced-starts_run [] h = refl
replaced-starts_run (c ∷ s) h = ground (arith, slash_is_no_stop c)

pub cons-IsPathless :
    (c : ℕ) (s : Text)
    → (c == b'/') ≡ false ⊎ starts_run s ≡ false
    → is_pathless s ≡ true
    → is_pathless (c ∷ s) ≡ true
unfolding is_pathless
cons-IsPathless c s (inl no_slash) h = ground (arith, no_slash)
cons-IsPathless c s (inr no_run) h = ground (arith, no_run)

mark-IsPathless : (s : Text) → is_pathless s ≡ true → is_pathless (path_mark ++ s) ≡ true
unfolding is_pathless
mark-IsPathless s h = h

-- Where no match begins, there is no slash or no run after it.
unmatched-cases :
    (c : ℕ) (s : Text)
    → (unix_path_length (c ∷ s) == 0) ≡ true
    → (c == b'/') ≡ false ⊎ starts_run s ≡ false
unfolding unix_path_length
unmatched-cases c s h = elim (Bool-cases (c == b'/')) [
  | inr n ↦ inl n
  | inl y ↦ inr (ground (arith, run_length-starts_run s))
]

replaced_at :
    (c : ℕ) (s : Text)
    → is_pathless (replace_from unix_path_length path_mark 0 s) ≡ true
    → is_pathless (replace_from unix_path_length path_mark (unix_path_length (c ∷ s) - 1) s) ≡ true
    → is_pathless (replace_from unix_path_length path_mark 0 (c ∷ s)) ≡ true
unfolding replace_from
replaced_at c s kept replaced = elim (Bool-cases (unix_path_length (c ∷ s) == 0)) [
  | inl none_here ↦ rw none_here (
      cons-IsPathless c (replace_from unix_path_length path_mark 0 s)
        (elim (unmatched-cases c s none_here) [
          | inl n ↦ inl n
          | inr n ↦ inr (replaced-starts_run s n)
        ])
        kept)
  | inr here ↦ rw here (
      mark-IsPathless (replace_from unix_path_length path_mark (unix_path_length (c ∷ s) - 1) s)
        replaced)
]

pub replaced-IsPathless :
    (skip : ℕ) (s : Text) → is_pathless (replace_from unix_path_length path_mark skip s) ≡ true
unfolding replace_from is_pathless
replaced-IsPathless skip [] = refl
replaced-IsPathless (suc skip) (c ∷ s) = replaced-IsPathless skip s
replaced-IsPathless zero (c ∷ s) =
    replaced_at c s (replaced-IsPathless 0 s) (replaced-IsPathless (unix_path_length (c ∷ s) - 1) s)

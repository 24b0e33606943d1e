-- ===== src/Presentation/Lines.antt =====
-- core/presentation/text.go: one line of limited length, and an activity without links and paths.
use codex_link_clawbot.Prelude.{
  leb, ◌==◌, if◌then◌else◌, length, take, ℕ, ◌-◌, Bool, true, false, ◌||◌, [], ◌∷◌, ◌++◌,
}
use codex_link_clawbot.Text.{Text, is_space, trim_left, trim_space}

abbrev pub space : ℕ
space = 32

abbrev pub ellipsis : ℕ
ellipsis = 0x2026

-- `strings.Join(strings.Fields(s), " ")`: runs of spaces are one space, and none stands at an end.
unfoldable pub squeeze_after : Bool → Text → Text
unfolding is_space
squeeze_after pending [] = []
squeeze_after pending (c ∷ s) =
    let after_space = squeeze_after true s in
    let after_rune = squeeze_after false s in
    if is_space c then after_space else if pending then space ∷ c ∷ after_rune else c ∷ after_rune

unfoldable pub squeeze : Text → Text
unfolding squeeze_after trim_left
squeeze s = squeeze_after false (trim_left s)

-- `Truncate`
unfoldable pub truncate : Text → ℕ → Text
truncate value limit =
    if limit == 0 || leb (length value) limit
    then value
    else if limit == 1
    then ellipsis ∷ []
    else take (limit - 1) value ++ (ellipsis ∷ [])

-- `NormalizeLine`
unfoldable pub normalize_line : Text → ℕ → Text
unfolding squeeze trim_space
normalize_line raw limit =
    let value = squeeze (trim_space raw) in
    if limit == 0
    then []
    else if leb (length value) limit
    then value
    else if limit == 1
    then ellipsis ∷ []
    else trim_space (take (limit - 1) value) ++ (ellipsis ∷ [])

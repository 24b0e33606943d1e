-- ===== src/Text/Patterns.antt =====
-- The regular expressions and the path tests of core/request/model.go, as tests on a text.
use codex_link_clawbot.Prelude.{
  ℕ, ◌++◌, Bool, true, false, ◌&&◌, ◌||◌, not, [], ◌∷◌, List, Option, none, some, leb, ◌==◌, length,
  all, if◌then◌else◌,
}
use codex_link_clawbot.Text.Strings.{
  Text, text, text_eq, is_empty, len, contains_any, trim_space, rune_count,
}

unfoldable pub is_lower : ℕ → Bool
is_lower c = leb b'a' c && leb c b'z'

unfoldable pub is_digit : ℕ → Bool
is_digit c = leb b'0' c && leb c b'9'

-- [a-f0-9]
unfoldable pub is_hex : ℕ → Bool
unfolding is_digit
is_hex c = (leb b'a' c && leb c b'f') || is_digit c

-- `strings.HasPrefix` with what follows the prefix.
unfoldable pub after_prefix : Text → Text → Option Text
after_prefix [] s = some s
after_prefix (a ∷ p) [] = none
after_prefix (a ∷ p) (c ∷ s) = elim (a == c) [ true ↦ after_prefix p s | false ↦ none ]

unfoldable pub has_prefix : Text → Text → Bool
unfolding after_prefix
has_prefix p s = elim (after_prefix p s) [ some rest ↦ true | none ↦ false ]

-- `^task-[a-f0-9]{32}$`
unfoldable pub is_task_id : Text → Bool
unfolding after_prefix text is_hex
is_task_id s = elim (after_prefix (text "task-") s) [
  | some rest ↦ length rest == 32 && all is_hex rest
  | none ↦ false
]

-- `^[a-z][a-z0-9_-]{0,63}$`
unfoldable pub is_safe_id : Text → Bool
unfolding is_lower is_digit
is_safe_id [] = false
is_safe_id (c ∷ s) =
    is_lower c
    && leb (length s) 63
    && all (λ r. is_lower r || is_digit r || r == b'_' || r == b'-') s

-- `^[a-z][a-z0-9_]{0,63}$`
unfoldable pub is_reason : Text → Bool
unfolding is_lower is_digit
is_reason [] = false
is_reason (c ∷ s) =
    is_lower c && leb (length s) 63 && all (λ r. is_lower r || is_digit r || r == b'_') s

-- `^[a-f0-9]{64}$`
unfoldable pub is_sha256 : Text → Bool
unfolding is_hex
is_sha256 s = length s == 64 && all is_hex s

-- `validSingleLine`
unfoldable pub valid_single_line : Text → ℕ → Bool
unfolding trim_space is_empty contains_any
valid_single_line value max_runes =
    let v = trim_space value in
    not (is_empty v) && leb (rune_count v) max_runes && not (contains_any v (13 ∷ 10 ∷ []))

-- `validAttachmentName`. A trimmed name with no slash is its own `filepath.Base`.
unfoldable pub valid_attachment_name : Text → Bool
unfolding trim_space is_empty contains_any text text_eq
valid_attachment_name name =
    let n = trim_space name in
    not (is_empty n)
    && leb (len n) 180
    && not (text_eq n (text "."))
    && not (contains_any n (13 ∷ 10 ∷ b'/' ∷ 92 ∷ 58 ∷ []))

-- The parts of a path between its slashes, with the part that is being read.
unfoldable pub split_path : Text → Text → List Text
split_path seen [] = seen ∷ []
split_path seen (c ∷ s) =
    let fresh = split_path [] s in
    let same = split_path (seen ++ (c ∷ [])) s in if c == b'/' then seen ∷ fresh else same

unfoldable pub is_plain_segment : Text → Bool
unfolding is_empty text_eq text
is_plain_segment p = not (is_empty p || text_eq p (text ".") || text_eq p (text ".."))

-- `filepath.IsLocal(p) && filepath.Clean(p) == p && strings.HasPrefix(p, dir+"/")` on Unix: below
-- the directory, each part of the path is a plain name.
unfoldable pub is_clean_below : Text → Text → Bool
unfolding after_prefix split_path is_plain_segment text
is_clean_below dir p = elim (after_prefix (dir ++ (b'/' ∷ [])) p) [
  | some rest ↦ all is_plain_segment (split_path [] rest)
  | none ↦ false
]

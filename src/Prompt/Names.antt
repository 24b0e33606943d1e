-- ===== src/Prompt/Names.antt =====
-- core/execution/prompt.go with core/thread/manager.go: a name that is suggested, and
-- normalizeName.
use codex_link_clawbot.Prelude.{
  ltb, ◌==◌, ok, length, take, all, length-append, length-take-le, ℕ, zero, suc, ◌-◌, ◌≤◌, ◌≡◌,
  refl, Bool, true, false, ◌&&◌, not, Option, none, some, [], ◌∷◌, ◌++◌, arith,
}
use codex_link_clawbot.Text.{
  Text, text, is_space, trim_left, trim_right, trim_space, contains_rune, contains_any,
}
use codex_link_clawbot.Presentation.Lines.{ellipsis, squeeze_after, squeeze, truncate}
use codex_link_clawbot.Presentation.Shown.{length-trim_space-le}
use codex_link_clawbot.Thread.{max_session_name, normalize_name}
use codex_link_clawbot.Prompt.{first_line, suggested_session_name}

-- A text that can stand in a session's name.
abbrev pub is_clean_rune : ℕ → Bool
is_clean_rune c = not (c == 13) && not (c == 10) && not (c == 0)

abbrev pub is_clean : Text → Bool
is_clean = all is_clean_rune

no_break : (s : Text) → is_clean s ≡ true → contains_any s (13 ∷ 10 ∷ 0 ∷ []) ≡ false
unfolding contains_any contains_rune
no_break [] h = refl
no_break (c ∷ s) h = ground (arith, no_break s)

trim_right-clean : (s : Text) → is_clean s ≡ true → is_clean (trim_right s) ≡ true
unfolding trim_right
trim_right-clean [] h = refl
trim_right-clean (c ∷ s) h = ground (arith, trim_right-clean s)

trim_left-clean : (s : Text) → is_clean s ≡ true → is_clean (trim_left s) ≡ true
unfolding trim_left
trim_left-clean [] h = refl
trim_left-clean (c ∷ s) h = ground (arith, trim_left-clean s)

trim_space-clean : (s : Text) → is_clean s ≡ true → is_clean (trim_space s) ≡ true
unfolding trim_space
trim_space-clean s h = trim_right-clean (trim_left s) (trim_left-clean s h)

take-clean : (n : ℕ) (s : Text) → is_clean s ≡ true → is_clean (take n s) ≡ true
take-clean zero s h = refl
take-clean (suc n) [] h = refl
take-clean (suc n) (c ∷ s) h = ground (arith, take-clean n s)

append-clean : (s t : Text) → is_clean s ≡ true → is_clean t ≡ true → is_clean (s ++ t) ≡ true
append-clean [] t h k = k
append-clean (c ∷ s) t h k = ground (arith, append-clean s t)

truncate-clean : (s : Text) (n : ℕ) → is_clean s ≡ true → is_clean (truncate s n) ≡ true
unfolding truncate
truncate-clean s n h =
    ground (arith, append-clean (take (n - 1) s) (ellipsis ∷ []), take-clean (n - 1) s)

truncate-short : (s : Text) → length (truncate s 36) ≤ 36
unfolding truncate
truncate-short s = ground (arith, length-append (take 35 s) (ellipsis ∷ []), length-take-le 35 s)

-- Spaces are squeezed to plain ones, so only a NUL of the text could be left.
squeeze_after-clean :
    (pending : Bool) (s : Text)
    → contains_rune s 0 ≡ false
    → is_clean (squeeze_after pending s) ≡ true
unfolding squeeze_after contains_rune is_space
squeeze_after-clean pending [] h = refl
squeeze_after-clean pending (c ∷ s) h =
    ground (arith, squeeze_after-clean true s, squeeze_after-clean false s)

contains-trim_left : (s : Text) → contains_rune s 0 ≡ false → contains_rune (trim_left s) 0 ≡ false
unfolding trim_left contains_rune
contains-trim_left [] h = refl
contains-trim_left (c ∷ s) h = ground (arith, contains-trim_left s)

contains-trim_right :
    (s : Text) → contains_rune s 0 ≡ false → contains_rune (trim_right s) 0 ≡ false
unfolding trim_right contains_rune
contains-trim_right [] h = refl
contains-trim_right (c ∷ s) h = ground (arith, contains-trim_right s)

contains-first_line :
    (s : Text) → contains_rune s 0 ≡ false → contains_rune (first_line s) 0 ≡ false
unfolding first_line contains_rune
contains-first_line [] h = refl
contains-first_line (c ∷ s) h = ground (arith, contains-first_line s)

named-clean :
    (body : Text)
    → contains_rune body 0 ≡ false
    → is_clean (squeeze (first_line (trim_space body))) ≡ true
unfolding squeeze trim_space
named-clean body h =
    let line : Text = trim_right (trim_left body) in
    squeeze_after-clean false (trim_left (first_line line)) (
      contains-trim_left (first_line line) (
        contains-first_line line
          (contains-trim_right (trim_left body) (contains-trim_left body h))))

normalize_name-clean :
    (name : Text)
    → is_clean name ≡ true
    → length name ≤ max_session_name
    → normalize_name name ≡ ok (trim_space name)
unfolding normalize_name
normalize_name-clean name clean short =
    let breaks = no_break (trim_space name) (trim_space-clean name clean) in
    let small : ltb max_session_name (length (trim_space name)) ≡ false =
      ground (arith, length-trim_space-le name, short) in
    ground (arith, breaks, small)

suggested_session_name-clean :
    (body : Text) (images : ℕ) (file : Option Text)
    → contains_rune body 0 ≡ false
    → ((name : Text) → file ≡ some name → is_clean (trim_space name) ≡ true)
    → is_clean (suggested_session_name body images file) ≡ true
unfolding suggested_session_name text
suggested_session_name-clean body images none no_nul clean_file =
    ground
      (arith, truncate-clean (squeeze (first_line (trim_space body))) 36 (named-clean body no_nul))
suggested_session_name-clean body images (some name) no_nul clean_file = ground (
  arith,
  truncate-clean (squeeze (first_line (trim_space body))) 36 (named-clean body no_nul),
  truncate-clean (text "文件分析 · " ++ trim_space name) 36
      (append-clean (text "文件分析 · ") (trim_space name) refl (clean_file name refl)),
)

suggested_session_name-short :
    (body : Text) (images : ℕ) (file : Option Text)
    → length (suggested_session_name body images file) ≤ max_session_name
unfolding suggested_session_name text
suggested_session_name-short body images none =
    ground (arith, truncate-short (squeeze (first_line (trim_space body))))
suggested_session_name-short body images (some name) = ground (
  arith,
  truncate-short (squeeze (first_line (trim_space body))),
  truncate-short (text "文件分析 · " ++ trim_space name),
)

-- The name that a request suggests is one that a session can have: where the text has no NUL, as
-- its admission requires, and the trimmed name of the first file has no NUL and no line break,
-- normalizeName does not refuse it.
pub suggested_session_name-accepted :
    (body : Text) (images : ℕ) (file : Option Text)
    → contains_rune body 0 ≡ false
    → ((name : Text) → file ≡ some name → is_clean (trim_space name) ≡ true)
    → normalize_name (suggested_session_name body images file)
      ≡ ok (trim_space (suggested_session_name body images file))
unfolding suggested_session_name
suggested_session_name-accepted body images file no_nul clean_file =
    normalize_name-clean (suggested_session_name body images file)
      (suggested_session_name-clean body images file no_nul clean_file)
      (suggested_session_name-short body images file)

-- ===== src/Text/Strings.antt =====
-- Go strings. A string is the sequence that `range` reads from it: a code point for each
-- well-formed UTF-8 sequence, and 0x110000 + b for a byte b that is not part of one.
-- `len`, `utf8.ValidString`, `utf8.RuneCountInString`, `strings.TrimSpace` and
-- `strings.ContainsAny` are read off that sequence.
use Prim.Native.Char.{code}
use codex_link_clawbot.Prelude.{
  ℕ, ◌+◌, String, ◌≡◌, refl, ◌↔◌, inl, inr, Bool, true, false, ◌&&◌, ◌||◌, List, [], ◌∷◌, arith,
  ltb, leb, ◌==◌, if◌then◌else◌, length, all, any, Bool-cases,
}

abbrev pub Text : Type 0
Text = List ℕ

-- The literal of a valid text.
unfoldable pub text : String → Text
text String.[] = []
text (String.◌∷◌ c s) = code c ∷ text s

unfoldable pub text_eq : Text → Text → Bool
text_eq [] [] = true
text_eq (a ∷ s) (b ∷ t) = a == b && text_eq s t
text_eq _ _ = false

pub text_eq_iff : (s t : Text) → (text_eq s t ≡ true) ↔ (s ≡ t)
unfolding text_eq
text_eq_iff [] [] = ((λ h. refl), (λ h. refl))
text_eq_iff [] (b ∷ t) = ground arith
text_eq_iff (a ∷ s) [] = ground arith
text_eq_iff (a ∷ s) (b ∷ t) = ground (arith, text_eq_iff s t)

pub text_eq_refl : (s : Text) → text_eq s s ≡ true
text_eq_refl s = (text_eq_iff s s).1 refl

pub text_eq_sym : (s t : Text) → text_eq s t ≡ text_eq t s
text_eq_sym s t = ground (arith, text_eq_iff s t, text_eq_iff t s)

unfoldable pub is_empty : Text → Bool
is_empty [] = true
is_empty (c ∷ s) = false

-- `len(s)`: the bytes of the UTF-8 encoding.
unfoldable pub width : ℕ → ℕ
width c =
    if ltb c 0x80
    then 1
    else if ltb c 0x800
    then 2
    else if ltb c 0x10000
    then 3
    else if ltb c 0x110000
    then 4
    else 1

unfoldable pub len : Text → ℕ
unfolding width
len [] = 0
len (c ∷ s) = width c + len s

unfoldable pub valid_utf8 : Text → Bool
valid_utf8 = all (λ c. ltb c 0x110000)

-- `utf8.RuneCountInString`: each item of the sequence counts once.
abbrev pub rune_count : Text → ℕ
rune_count = length

-- `unicode.IsSpace`
unfoldable pub is_space : ℕ → Bool
is_space c =
    (leb 9 c && leb c 13)
    || c == 32
    || c == 0x85
    || c == 0xa0
    || c == 0x1680
    || (leb 0x2000 c && leb c 0x200a)
    || c == 0x2028
    || c == 0x2029
    || c == 0x202f
    || c == 0x205f
    || c == 0x3000

unfoldable pub trim_left : Text → Text
trim_left [] = []
trim_left (c ∷ s) = if is_space c then trim_left s else c ∷ s

unfoldable pub trim_right : Text → Text
unfolding is_empty
trim_right [] = []
trim_right (c ∷ s) = let rest = trim_right s in if is_empty rest && is_space c then [] else c ∷ rest

-- `strings.TrimSpace`
unfoldable pub trim_space : Text → Text
unfolding trim_left trim_right
trim_space s = trim_right (trim_left s)

-- `strings.ContainsRune`, and `strings.ContainsAny` with the set as a list of code points.
unfoldable pub contains_rune : Text → ℕ → Bool
contains_rune s c = any (λ r. r == c) s

unfoldable pub contains_any : Text → List ℕ → Bool
unfolding contains_rune
contains_any s set = any (λ r. contains_rune set r) s

trim_right_idem : (s : Text) → trim_right (trim_right s) ≡ trim_right s
unfolding trim_right
trim_right_idem [] = refl
trim_right_idem (c ∷ s) = ground (arith, trim_right_idem s)

-- A text that begins with no space keeps its first character under `trim_right`.
trim_left-trim_right : (s : Text) → trim_left (trim_right (trim_left s)) ≡ trim_right (trim_left s)
unfolding trim_left trim_right
trim_left-trim_right [] = refl
trim_left-trim_right (c ∷ s) = elim (Bool-cases (is_space c)) [
  | inl e ↦ rw e (trim_left-trim_right s)
  | inr e ↦ ground arith
]

-- Trimming twice is trimming once.
pub trim_space_idem : (s : Text) → trim_space (trim_space s) ≡ trim_space s
unfolding trim_space
trim_space_idem s = rw (trim_left-trim_right s) (trim_right_idem (trim_left s))

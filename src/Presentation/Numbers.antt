-- ===== src/Presentation/Numbers.antt =====
-- `%d` of fmt.Sprintf, as core/execution/progress.go and the adapters use it.
use codex_link_clawbot.Prelude.{
  ltb, if◌then◌else◌, Bool-cases, all, ℕ, zero, suc, ◌+◌, ◌-◌, ◌*◌, ◌/◌, ◌%◌, ◌<◌, ◌≡◌, refl, inl,
  inr, true, false, [], ◌∷◌, ◌++◌, arith,
}
use codex_link_clawbot.Text.{Text, is_digit}

-- A Go int.
pub data ℤ : Type 0 where
  pos : ℕ → ℤ
  negsuc : ℕ → ℤ

-- The decimal digits of a number, on fuel; a number itself and one more is always enough.
unfoldable pub digits_of : ℕ → ℕ → Text
digits_of zero n = []
digits_of (suc fuel) n =
    let rest = digits_of fuel (n / 10) in
    if ltb n 10 then (b'0' + n) ∷ [] else rest ++ ((b'0' + n % 10) ∷ [])

unfoldable pub decimal : ℕ → Text
unfolding digits_of
decimal n = digits_of (suc n) n

-- The number that a text of digits stands for, after one read already.
unfoldable pub number_from : ℕ → Text → ℕ
number_from n [] = n
number_from n (c ∷ s) = number_from (10 * n + (c - b'0')) s

number_from-append :
    (n : ℕ) (s : Text) (c : ℕ) → number_from n (s ++ (c ∷ [])) ≡ 10 * number_from n s + (c - b'0')
unfolding number_from
number_from-append n [] c = refl
number_from-append n (d ∷ s) c = number_from-append (10 * n + (d - b'0')) s c

digits_of-number : (fuel n : ℕ) → n < fuel → number_from 0 (digits_of fuel n) ≡ n
unfolding digits_of number_from
digits_of-number zero n h = absurd (omega arith)
digits_of-number (suc fuel) n h = elim (Bool-cases (ltb n 10)) [
  | inl small ↦ ground (arith, small)
  | inr large ↦
      let here = number_from-append 0 (digits_of fuel (n / 10)) (b'0' + n % 10) in
      let later : number_from 0 (digits_of fuel (n / 10)) ≡ n / 10 =
        digits_of-number fuel (n / 10) (ground (arith, large)) in
      ground (arith, large, here, later)
]

-- The fuel is enough: the digits stand for the number.
pub decimal-number : (n : ℕ) → number_from 0 (decimal n) ≡ n
unfolding decimal
decimal-number n = digits_of-number (suc n) n (omega arith)

is_digit-digit : (n : ℕ) → n < 10 → is_digit (b'0' + n) ≡ true
unfolding is_digit
is_digit-digit n h = ground arith

all_digits-append :
    (s : Text) (c : ℕ)
    → all is_digit s ≡ true
    → is_digit c ≡ true
    → all is_digit (s ++ (c ∷ [])) ≡ true
all_digits-append [] c h d = ground (arith, d)
all_digits-append (x ∷ s) c h d = ground (arith, all_digits-append s c)

digits_of-all_digits : (fuel n : ℕ) → all is_digit (digits_of fuel n) ≡ true
unfolding digits_of
digits_of-all_digits zero n = refl
digits_of-all_digits (suc fuel) n = elim (Bool-cases (ltb n 10)) [
  | inl small ↦ ground (arith, small, is_digit-digit n)
  | inr large ↦
      let here : is_digit (b'0' + n % 10) ≡ true = is_digit-digit (n % 10) (omega arith) in
      let all_here =
        all_digits-append (digits_of fuel (n / 10)) (b'0' + n % 10)
          (digits_of-all_digits fuel (n / 10)) here in
      ground (arith, large, all_here)
]

pub decimal-all_digits : (n : ℕ) → all is_digit (decimal n) ≡ true
unfolding decimal
decimal-all_digits n = digits_of-all_digits (suc n) n

-- Two numbers before the same mark are read apart.
digits-split :
    (a b s t : Text) (c : ℕ)
    → all is_digit a ≡ true
    → all is_digit b ≡ true
    → is_digit c ≡ false
    → a ++ (c ∷ s) ≡ b ++ (c ∷ t)
    → (a ≡ b) × (s ≡ t)
digits-split [] [] s t c da db dc h = (refl, ground arith)
digits-split [] (y ∷ b) s t c da db dc h = absurd (ground arith)
digits-split (x ∷ a) [] s t c da db dc h = absurd (ground arith)
digits-split (x ∷ a) (y ∷ b) s t c da db dc h = ground (arith, digits-split a b s t c)

pub decimal-split :
    (m n : ℕ) (s t : Text) (c : ℕ)
    → is_digit c ≡ false
    → decimal m ++ (c ∷ s) ≡ decimal n ++ (c ∷ t)
    → (m ≡ n) × (s ≡ t)
decimal-split m n s t c dc h =
    let (same, rest) =
      digits-split (decimal m) (decimal n) s t c (decimal-all_digits m) (decimal-all_digits n) dc
        h in
    (ground (arith, same, decimal-number m, decimal-number n), rest)

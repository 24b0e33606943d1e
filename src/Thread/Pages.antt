-- ===== src/Thread/Pages.antt =====
-- core/thread/global_catalog.go: the pages of a list.
use codex_link_clawbot.Prelude.{
  ltb, ◌==◌, max, Bool-cases, Fallible, ok, err, length, take, drop, ℕ, zero, suc, ◌+◌, ◌-◌, ◌*◌,
  ◌/◌, ◌≤◌, ◌<◌, ◌≡◌, refl, sym, ap, ◌∙◌, inl, inr, false, List, [], ◌∷◌, ◌++◌, arith,
}
use codex_link_clawbot.Thread.{pages_of, page_of, ThreadInfo, ThreadError, GlobalPage}
use native.Mathlib.Nat.{lt-div-mul-add, div-lt_iff_lt-mul}

module _ {A : Type 0} where
  take-none : (n : ℕ) (xs : List A) → xs ≡ [] → take n xs ≡ []
  take-none zero xs h = refl
  take-none (suc n) [] h = refl
  take-none (suc n) (x ∷ xs) h = absurd (ground arith)

  take-add : (m n k : ℕ) (xs : List A) → k ≡ m + n → take k xs ≡ take m xs ++ take n (drop m xs)
  take-add zero n k xs h = ap (λ i. take i xs) (omega (arith, h))
  take-add (suc m) n zero xs h = absurd (omega arith)
  take-add (suc m) n (suc k) [] h = sym (take-none n [] refl)
  take-add (suc m) n (suc k) (x ∷ xs) h = ap (λ l. x ∷ l) (take-add m n k xs (omega arith))

  take-all : (n : ℕ) (xs : List A) → length xs ≤ n → take n xs ≡ xs
  take-all zero [] h = refl
  take-all zero (x ∷ xs) h = absurd (omega arith)
  take-all (suc n) [] h = refl
  take-all (suc n) (x ∷ xs) h = ap (λ l. x ∷ l) (take-all n xs (omega arith))

-- What a page shows.
abbrev pub shown : Fallible ThreadError GlobalPage → List ThreadInfo
shown (ok page) = page.items
shown (err e) = []

-- The items of the first pages, one page after the other.
abbrev pub first_pages : ℕ → ℕ → List ThreadInfo → List ThreadInfo
first_pages size zero items = []
first_pages size (suc n) items = first_pages size n items ++ shown (page_of (suc n) size items)

page_of-shown :
    (size n : ℕ) (items : List ThreadInfo)
    → 0 < size
    → n < pages_of (length items) size
    → shown (page_of (suc n) size items) ≡ take size (drop (n * size) items)
unfolding page_of
page_of-shown size n items some_size small =
    let given : (size == 0) ≡ false = ground arith in
    let there : ltb (pages_of (length items) size) (suc n) ≡ false = ground (arith, small) in
    let before : (suc n - 1) * size ≡ n * size = ap (λ i. i * size) (omega arith) in
    ground (arith, given, there, before)

first_pages-take :
    (size n k : ℕ) (items : List ThreadInfo)
    → 0 < size
    → k ≡ n * size
    → n ≤ pages_of (length items) size
    → first_pages size n items ≡ take k items
first_pages-take size zero k items some_size h small =
    let none_taken : k ≡ 0 = omega (arith, h) in sym (ap (λ i. take i items) none_taken)
first_pages-take size (suc n) k items some_size h small =
    let rest = first_pages-take size n (n * size) items some_size refl (omega arith) in
    let here = page_of-shown size n items some_size (omega arith) in
    let whole = take-add (n * size) size k items (ground (arith, h)) in
    ground (arith, rest, here, whole)

pages_of-enough : (total size : ℕ) → 0 < size → total ≤ pages_of total size * size
pages_of-enough total size some_size =
    let q : ℕ = (total + size - 1) / size in
    elim (Bool-cases (ltb 1 q)) [
      | inl more ↦
          let whole : total ≤ q * size =
            omega (arith, lt-div-mul-add {a = total + size - 1} some_size) in
          let same : max 1 q * size ≡ q * size = ap (λ i. i * size) (ground (arith, more)) in
          omega (arith, whole, same)
      | inr one ↦
          let few : q < 2 = ground (arith, one) in
          let short : total + size - 1 < 2 * size = (div-lt_iff_lt-mul {y = 2} some_size).0 few in
          let same : max 1 q * size ≡ 1 * size = ap (λ i. i * size) (ground (arith, one)) in
          omega (arith, short, same)
    ]

-- The pages of a list, put one after the other, are the list: for every size, each page up to the
-- last is there, and nothing is left out, shown twice or out of its place.
pub first_pages-all :
    (size : ℕ) (items : List ThreadInfo)
    → 0 < size
    → first_pages size (pages_of (length items) size) items ≡ items
first_pages-all size items some_size =
    let pages : ℕ = pages_of (length items) size in
    first_pages-take size pages (pages * size) items some_size refl (omega arith)
    ∙ take-all (pages * size) items (pages_of-enough (length items) size some_size)

-- ===== src/Workspace/Matches.antt =====
-- core/workspace/manager.go: the workspace that Match selects.
use codex_link_clawbot.Prelude.{
  ltb, leb, if◌then◌else◌, Bool-cases, Option-cases, all, ℕ, ◌≤◌, ◌≡◌, refl, sym, ◌∙◌, subst, ◌⊎◌,
  inl, inr, Bool, true, Option, none, some, List, [], ◌∷◌, arith,
}
use codex_link_clawbot.Text.{Text, len}
use codex_link_clawbot.Workspace.{
  canonical_path, within, match_from, match_workspace, Definition, FileSystem,
}

-- The bytes of a workspace's real root, where the path is within it.
abbrev pub root_length : FileSystem → Text → Definition → Option ℕ
root_length fs path d = elim (canonical_path fs d.root) [
  | none ↦ none
  | some root ↦ if within path root then some (len root) else none
]

abbrev pub at_most : ℕ → Option ℕ → Bool
at_most n none = true
at_most n (some k) = leb k n

-- Where a definition stands among others.
pub data Among (d : Definition) : List Definition → Type 0 where
  first : (rest : List Definition) → Among d (d ∷ rest)
  later : (e : Definition) {rest : List Definition} → Among d rest → Among d (e ∷ rest)

abbrev next_best :
    FileSystem → Text → Option (Definition × ℕ) → Definition → Option (Definition × ℕ)
next_best fs path best d = elim (root_length fs path d) [
  | none ↦ best
  | some n ↦ elim best [ none ↦ some (d, n) | some b ↦ if ltb b.1 n then some (d, n) else some b ]
]

match_from-next :
    (fs : FileSystem) (path : Text) (best : Option (Definition × ℕ)) (d : Definition)
    (rest : List Definition)
    → match_from fs path best (d ∷ rest) ≡ match_from fs path (next_best fs path best d) rest
unfolding match_from
match_from-next fs path best d rest = elim (Option-cases (canonical_path fs d.root)) [
  | inl n ↦ ground (arith, n)
  | inr (root, is) ↦ elim (Option-cases best) [
    | inl none_yet ↦ ground (arith, is, none_yet)
    | inr (b, has) ↦ ground (arith, is, has)
  ]
]

-- The best never gets worse.
match_from-grows :
    (fs : FileSystem) (path : Text) (b : Definition) (m : ℕ) (items : List Definition)
    → (d : Definition) × (n : ℕ) × (match_from fs path (some (b, m)) items ≡ some (d, n)) × (m ≤ n)
unfolding match_from
match_from-grows fs path b m [] = (b, m, refl, omega arith)
match_from-grows fs path b m (e ∷ items) =
    let step = match_from-next fs path (some (b, m)) e items in
    let same = match_from-grows fs path b m items in
    elim (Option-cases (root_length fs path e)) [
      | inl out ↦ (same.0, same.1, ground (arith, step, out, same.2), same.3)
      | inr (k, inside) ↦ elim (Bool-cases (ltb m k)) [
        | inr worse ↦ (same.0, same.1, ground (arith, step, inside, worse, same.2), same.3)
        | inl better ↦
            let grown = match_from-grows fs path e k items in
            (
              grown.0,
              grown.1,
              ground (arith, step, inside, better, grown.2),
              ground (arith, grown.3, better),
            )
      ]
    ]

-- Nothing that the path is within has a longer root than the one that is selected.
match_from-longest :
    (fs : FileSystem) (path : Text) (best : Option (Definition × ℕ)) (items : List Definition)
    {d : Definition} {n : ℕ}
    → match_from fs path best items ≡ some (d, n)
    → all (λ e. at_most n (root_length fs path e)) items ≡ true
unfolding match_from
match_from-longest fs path best [] h = refl
match_from-longest fs path best (e ∷ items) {d} {n} h =
    let step = match_from-next fs path best e items in
    let rest = match_from-longest fs path (next_best fs path best e) items (sym step ∙ h) in
    elim (Option-cases (root_length fs path e)) [
      | inl out ↦ ground (arith, out, rest)
      | inr (k, inside) ↦ elim (Option-cases best) [
        | inl none_yet ↦
            let grown = match_from-grows fs path e k items in
            ground (arith, step, inside, none_yet, grown.2, grown.3, rest)
        | inr ((b, m), has) ↦ elim (Bool-cases (ltb m k)) [
          | inl better ↦
              let grown = match_from-grows fs path e k items in
              ground (arith, step, inside, has, better, grown.2, grown.3, rest)
          | inr worse ↦
              let grown = match_from-grows fs path b m items in
              ground (arith, step, inside, has, worse, grown.2, grown.3, rest)
        ]
      ]
    ]

next_best-cases :
    (fs : FileSystem) (path : Text) (best : Option (Definition × ℕ)) (e : Definition) (k : ℕ)
    {d : Definition} {n : ℕ}
    → root_length fs path e ≡ some k
    → next_best fs path best e ≡ some (d, n)
    → (best ≡ some (d, n)) ⊎ ((e ≡ d) × (k ≡ n))
next_best-cases fs path none e k inside h = inr (ground (arith, inside), ground (arith, inside))
next_best-cases fs path (some (b, m)) e k inside h = elim (Bool-cases (ltb m k)) [
  | inl better ↦ inr (ground (arith, inside, better), ground (arith, inside, better))
  | inr worse ↦ inl (ground (arith, inside, worse))
]

-- The one that is selected is one of the items, or the best before them.
match_from-Among :
    (fs : FileSystem) (path : Text) (best : Option (Definition × ℕ)) (items : List Definition)
    {d : Definition} {n : ℕ}
    → match_from fs path best items ≡ some (d, n)
    → (best ≡ some (d, n)) ⊎ (Among d items × (root_length fs path d ≡ some n))
unfolding match_from
match_from-Among fs path best [] h = inl h
match_from-Among fs path best (e ∷ items) {d} {n} h =
    let step = match_from-next fs path best e items in
    elim (match_from-Among fs path (next_best fs path best e) items (sym step ∙ h)) [
      | inr (at, inside) ↦ inr (Among.later e at, inside)
      | inl here ↦ elim (Option-cases (root_length fs path e)) [
        | inl out ↦ inl (ground (arith, here, out))
        | inr (k, inside) ↦ elim (next_best-cases fs path best e k inside here) [
          | inl kept ↦ inl kept
          | inr (same, is_n) ↦ inr (
            subst (λ (x : Definition). Among x (e ∷ items)) same (Among.first items),
            ground (arith, same, inside, is_n),
          )
        ]
      ]
    ]

-- Match selects a workspace that the real path is in, and of all those the path is in one whose
-- real root is the longest.
pub match_workspace-longest :
    (fs : FileSystem) (cwd : Text) (items : List Definition) {d : Definition}
    → match_workspace fs cwd items ≡ some d
    → (path : Text) × (n : ℕ) × (canonical_path fs cwd ≡ some path)
      × Among d items
      × (root_length fs path d ≡ some n)
      × (all (λ e. at_most n (root_length fs path e)) items ≡ true)
unfolding match_workspace
match_workspace-longest fs cwd items {d} h = elim (Option-cases (canonical_path fs cwd)) [
  | inl n ↦ absurd (ground (arith, n))
  | inr (path, is) ↦ elim (Option-cases (match_from fs path none items)) [
    | inl n ↦ absurd (ground (arith, is, n))
    | inr ((e, n), found) ↦
        let same : e ≡ d = ground (arith, is, found) in
        let here : match_from fs path none items ≡ some (d, n) = ground (arith, found, same) in
        elim (match_from-Among fs path none items here) [
          | inl bad ↦ absurd (ground arith)
          | inr (at, inside) ↦ (path, n, is, at, inside, match_from-longest fs path none items here)
        ]
  ]
]

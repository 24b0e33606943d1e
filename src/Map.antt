-- ===== src/Map.antt =====
-- Go maps with text keys, as association lists: `range` reads the entries in the list's order,
-- which stands for the order that Go leaves open.
use codex_link_clawbot.Prelude.{
  if◌then◌else◌, ◌≡◌, refl, Bool, true, false, Option, none, some, List, [], ◌∷◌, map, arith,
}
use codex_link_clawbot.Text.{Text, text_eq, text_eq_iff, text_eq_refl}

abbrev pub Map : Type 0 → Type 0
Map V = List (Text × V)

module _ {V : Type 0} where
  unfoldable pub lookup : Text → Map V → Option V
  lookup k [] = none
  lookup k ((j, v) ∷ m) = if text_eq j k then some v else lookup k m

  unfoldable pub insert : Text → V → Map V → Map V
  insert k v [] = (k, v) ∷ []
  insert k v ((j, w) ∷ m) = if text_eq j k then (k, v) ∷ m else (j, w) ∷ insert k v m

  -- `delete(m, k)`
  unfoldable pub delete : Text → Map V → Map V
  delete k [] = []
  delete k ((j, w) ∷ m) = let rest = delete k m in if text_eq j k then rest else (j, w) ∷ rest

  unfoldable pub contains : Text → Map V → Bool
  unfolding lookup
  contains k m = elim (lookup k m) [ some v ↦ true | none ↦ false ]

  abbrev pub values : Map V → List V
  values m = map (λ e. e.1) m

  abbrev pub get_or : Text → V → Map V → V
  get_or k d m = elim (lookup k m) [ some v ↦ v | none ↦ d ]

  pub lookup-insert :
      (k j : Text) (v : V) (m : Map V)
      → lookup j (insert k v m) ≡ (if text_eq k j then some v else lookup j m)
  unfolding lookup insert
  lookup-insert k j v [] = refl
  lookup-insert k j v ((i, w) ∷ m) =
      ground (arith, text_eq_iff k j, text_eq_iff i k, text_eq_iff i j, lookup-insert k j v m)

  pub lookup-insert_self : (k : Text) (v : V) (m : Map V) → lookup k (insert k v m) ≡ some v
  lookup-insert_self k v m = rw (lookup-insert k k v m, text_eq_refl k)

  pub lookup-delete :
      (k j : Text) (m : Map V) → lookup j (delete k m) ≡ (if text_eq k j then none else lookup j m)
  unfolding lookup delete
  lookup-delete k j [] = ground arith
  lookup-delete k j ((i, w) ∷ m) =
      ground (arith, text_eq_iff k j, text_eq_iff i k, text_eq_iff i j, lookup-delete k j m)

  -- Writing a key's old value back after a write restores the map.
  pub insert-restore :
      (k : Text) (v w : V) (m : Map V) → lookup k m ≡ some v → insert k v (insert k w m) ≡ m
  unfolding lookup insert
  insert-restore k v w [] h = cc
  insert-restore k v w ((i, u) ∷ m) h =
      ground (arith, text_eq_iff i k, text_eq_refl k, insert-restore k v w m)

  -- Deleting a key that was absent before a write restores the map.
  pub delete-absent : (k : Text) (m : Map V) → lookup k m ≡ none → delete k m ≡ m
  unfolding lookup delete
  delete-absent k [] h = refl
  delete-absent k ((i, u) ∷ m) h = ground (arith, delete-absent k m)

  pub delete-restore :
      (k : Text) (w : V) (m : Map V) → lookup k m ≡ none → delete k (insert k w m) ≡ m
  unfolding lookup insert delete
  delete-restore k w [] h = ground (arith, text_eq_refl k)
  delete-restore k w ((i, u) ∷ m) h = ground (arith, text_eq_refl k, delete-restore k w m)

-- No key stands in two entries.
abbrev pub HasDistinctKeys : {V : Type 0} → Map V → Type 0
HasDistinctKeys [] = Unit {0}
HasDistinctKeys ((k, v) ∷ m) = (lookup k m ≡ none) × HasDistinctKeys m

module _ {V : Type 0} where
  pub insert-HasDistinctKeys :
      (k : Text) (v : V) (m : Map V) → HasDistinctKeys m → HasDistinctKeys (insert k v m)
  unfolding insert lookup
  insert-HasDistinctKeys k v [] d = (refl, tt)
  insert-HasDistinctKeys k v ((i, w) ∷ m) d =
      ground (
        arith,
        insert-HasDistinctKeys k v m,
        text_eq_iff i k,
        text_eq_iff k i,
        lookup-insert k i v m,
      )

  pub delete-HasDistinctKeys :
      (k : Text) (m : Map V) → HasDistinctKeys m → HasDistinctKeys (delete k m)
  unfolding delete lookup
  delete-HasDistinctKeys k [] d = tt
  delete-HasDistinctKeys k ((i, w) ∷ m) d =
      ground (arith, delete-HasDistinctKeys k m, lookup-delete k i m)

  -- Two maps that answer every lookup alike.
  abbrev pub Agrees : Map V → Map V → Type 0
  Agrees rows m = (k : Text) → lookup k rows ≡ lookup k m

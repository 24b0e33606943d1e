-- ===== src/Request/Storage/Delta.antt =====
-- core/request/sqlite.go: the delta that a save writes.
use codex_link_clawbot.Prelude.{if◌then◌else◌, ◌≡◌, refl, ◌&&◌, not, none, some, [], ◌∷◌, arith}
use codex_link_clawbot.Text.{Text, text_eq_iff}
use codex_link_clawbot.Map.{
  Map, lookup, insert, delete, contains, lookup-insert, lookup-delete, HasDistinctKeys, Agrees,
}
use codex_link_clawbot.Request.Storage.{delete_missing, is_changed, put_changed, write_delta}

module _ {V : Type 0} where
  pub lookup-delete_missing :
      (j : Text) (base next rows : Map V)
      → lookup j (delete_missing base next rows)
        ≡ (if contains j base && not (contains j next) then none else lookup j rows)
  unfolding delete_missing contains lookup
  lookup-delete_missing j [] next rows = refl
  lookup-delete_missing j ((k, v) ∷ base) next rows = ground (
    arith,
    lookup-delete_missing j base next (if contains k next then rows else delete k rows),
    lookup-delete k j rows,
    text_eq_iff k j,
  )

module _ {V : Type 0} (dec : Discrete V) where
  pub lookup-put_changed :
      (j : Text) (base todo rows : Map V)
      → HasDistinctKeys todo
      → lookup j (put_changed dec base todo rows) ≡ (elim (lookup j todo) [
        | none ↦ lookup j rows
        | some v ↦ if is_changed dec (lookup j base) v then some v else lookup j rows
      ])
  unfolding put_changed lookup
  lookup-put_changed j base [] rows d = refl
  lookup-put_changed j base ((k, v) ∷ todo) rows d = ground (
    arith,
    lookup-put_changed j base todo
        (if is_changed dec (lookup k base) v then insert k v rows else rows) d.1,
    lookup-insert k j v rows,
    text_eq_iff k j,
  )

  -- Rows that agree with the baseline agree with the next state after the delta is written.
  pub write_delta-Agrees :
      (base next rows : Map V)
      → HasDistinctKeys next
      → Agrees rows base
      → Agrees (write_delta dec base next rows) next
  unfolding write_delta contains
  write_delta-Agrees base next rows d agree j = ground (
    arith,
    lookup-put_changed j base next (delete_missing base next rows) d,
    lookup-delete_missing j base next rows,
    agree j,
  )

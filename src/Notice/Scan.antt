-- ===== src/Notice/Scan.antt =====
-- core/delivery/pending_notice.go: validate, on a list that a filter or an append makes.
use codex_link_clawbot.Prelude.{
  leb, ok, length, filter, length-filter-le, ℕ, ◌≡◌, refl, Bool, true, false, ◌&&◌, none, some,
  List, [], ◌∷◌, ◌++◌, map, arith,
}
use codex_link_clawbot.Text.{Text, text_eq_iff, text_eq_sym}
use codex_link_clawbot.Map.{Map, lookup, insert, delete}
use codex_link_clawbot.Notice.{
  max_pending_notices_per_owner, valid_notice_line, member_of, good_notice, scan_notices,
  scan_notice_owners, is_live, remove_expired, find_key, Notice,
}

-- What an inner loop says of every list of ids and keys that holds no more.
abbrev Within : List Text → List Text → Type 0
Within some_keys keys = (k : Text) → member_of k some_keys ≡ true → member_of k keys ≡ true

Within-cons : (k : Text) (few keys : List Text) → Within few keys → Within (k ∷ few) (k ∷ keys)
unfolding member_of
Within-cons k few keys w j h = ground (arith, w j)

Within-skip : (k : Text) (few keys : List Text) → Within few keys → Within few (k ∷ keys)
unfolding member_of
Within-skip k few keys w j h = ground (arith, w j)

scan_notices-filter-Within :
    (p : Notice → Bool) (few_ids few_keys ids keys : List Text) (ns : List Notice)
    → Within few_ids ids
    → Within few_keys keys
    → scan_notices ids keys ns ≡ true
    → scan_notices few_ids few_keys (filter p ns) ≡ true
unfolding scan_notices
scan_notices-filter-Within p few_ids few_keys ids keys [] wi wk h = refl
scan_notices-filter-Within p few_ids few_keys ids keys (n ∷ ns) wi wk h = ground (
  arith,
  wi n.id,
  wk n.dedup_key,
  scan_notices-filter-Within p (n.id ∷ few_ids) (n.dedup_key ∷ few_keys) (n.id ∷ ids)
      (n.dedup_key ∷ keys) ns (Within-cons n.id few_ids ids wi)
      (Within-cons n.dedup_key few_keys keys wk),
  scan_notices-filter-Within p few_ids few_keys (n.id ∷ ids) (n.dedup_key ∷ keys) ns
      (Within-skip n.id few_ids ids wi) (Within-skip n.dedup_key few_keys keys wk),
)

-- A part of a valid list is valid.
pub scan_notices-filter :
    (p : Notice → Bool) (ns : List Notice)
    → scan_notices [] [] ns ≡ true
    → scan_notices [] [] (filter p ns) ≡ true
scan_notices-filter p ns h = scan_notices-filter-Within p [] [] [] [] ns (λ k m. m) (λ k m. m) h

scan_notices-append-Within :
    (n : Notice) (ids keys : List Text) (ns : List Notice)
    → good_notice n ≡ true
    → member_of n.id ids ≡ false
    → member_of n.id (map (λ x. x.id) ns) ≡ false
    → member_of n.dedup_key keys ≡ false
    → find_key n.dedup_key ns ≡ none
    → scan_notices ids keys ns ≡ true
    → scan_notices ids keys (ns ++ (n ∷ [])) ≡ true
unfolding scan_notices member_of find_key
scan_notices-append-Within n ids keys [] g i m k f h = ground arith
scan_notices-append-Within n ids keys (x ∷ ns) g i m k f h = ground (
  arith,
  text_eq_sym x.id n.id,
  text_eq_sym x.dedup_key n.dedup_key,
  scan_notices-append-Within n (x.id ∷ ids) (x.dedup_key ∷ keys) ns,
)

-- A notice with a new id and a new key extends a valid list.
pub scan_notices-append :
    (n : Notice) (ns : List Notice)
    → good_notice n ≡ true
    → member_of n.id (map (λ x. x.id) ns) ≡ false
    → find_key n.dedup_key ns ≡ none
    → scan_notices [] [] ns ≡ true
    → scan_notices [] [] (ns ++ (n ∷ [])) ≡ true
unfolding member_of
scan_notices-append n ns g m f h = scan_notices-append-Within n [] [] ns g refl m refl f h

-- The last notice of a valid list is a good one, with a key that no other has.
pub scan_notices-last :
    (n : Notice) (ids keys : List Text) (ns : List Notice)
    → scan_notices ids keys (ns ++ (n ∷ [])) ≡ true
    → good_notice n ≡ true
unfolding scan_notices
scan_notices-last n ids keys [] h = ground arith
scan_notices-last n ids keys (x ∷ ns) h =
    let tail : scan_notices (x.id ∷ ids) (x.dedup_key ∷ keys) (ns ++ (n ∷ [])) ≡ true =
      grind arith in
    scan_notices-last n (x.id ∷ ids) (x.dedup_key ∷ keys) ns tail

-- The owners of a valid state: what holds of an owner's list.
abbrev pub good_owner : Text → List Notice → Bool
good_owner owner ns =
    valid_notice_line owner 512
    && leb (length ns) max_pending_notices_per_owner
    && scan_notices [] [] ns

pub scan_notice_owners-lookup :
    (j : Text) (owners : Map (List Notice)) {ns : List Notice}
    → scan_notice_owners owners ≡ ok tt
    → lookup j owners ≡ some ns
    → good_owner j ns ≡ true
unfolding scan_notice_owners lookup
scan_notice_owners-lookup j [] h there = absurd (ground arith)
scan_notice_owners-lookup j ((k, x) ∷ owners) {ns} h there =
    ground (arith, text_eq_iff k j, scan_notice_owners-lookup j owners {ns = ns})

-- Conversely, lists that are good by themselves make a valid state.
pub scan_notice_owners-insert :
    (j : Text) (ns : List Notice) (owners : Map (List Notice))
    → good_owner j ns ≡ true
    → scan_notice_owners owners ≡ ok tt
    → scan_notice_owners (insert j ns owners) ≡ ok tt
unfolding scan_notice_owners insert
scan_notice_owners-insert j ns [] g h = ground arith
scan_notice_owners-insert j ns ((k, x) ∷ owners) g h =
    ground (arith, text_eq_iff k j, scan_notice_owners-insert j ns owners)

pub scan_notice_owners-delete :
    (j : Text) (owners : Map (List Notice))
    → scan_notice_owners owners ≡ ok tt
    → scan_notice_owners (delete j owners) ≡ ok tt
unfolding scan_notice_owners delete
scan_notice_owners-delete j [] h = refl
scan_notice_owners-delete j ((k, x) ∷ owners) h = ground (arith, scan_notice_owners-delete j owners)

pub scan_notice_owners-remove_expired :
    (now : ℕ) (owners : Map (List Notice))
    → scan_notice_owners owners ≡ ok tt
    → scan_notice_owners (remove_expired now owners) ≡ ok tt
unfolding scan_notice_owners remove_expired
scan_notice_owners-remove_expired now [] h = refl
scan_notice_owners-remove_expired now ((k, x) ∷ owners) h = ground (
  arith,
  length-filter-le (is_live now) x,
  scan_notices-filter (is_live now) x,
  scan_notice_owners-remove_expired now owners,
)

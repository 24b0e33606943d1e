-- ===== src/Runtime/Probes.antt =====
-- core/runtimecontrol/controller.go: a list of probes after a write of one.
use codex_link_clawbot.Prelude.{
  ◌==◌, if◌then◌else◌, length, all, any, sum_of, ℕ, zero, suc, ◌+◌, ◌≡◌, refl, Bool, true, false,
  ◌&&◌, ◌||◌, not, none, some, List, [], ◌∷◌, ◌++◌, arith,
}
use codex_link_clawbot.Runtime.{new_probe, probe_at, put_probe, without_batch, Probe}

abbrev pub healthy_count : List Probe → ℕ
healthy_count ps = sum_of (λ p. if p.is_healthy then 1 else 0) ps

abbrev pub has_batch : ℕ → List (ℕ × ℕ) → Bool
has_batch n bs = any (λ e. e.0 == n) bs

abbrev pub is_pending_at : ℕ → List Probe → Bool
is_pending_at n ps = elim (probe_at n ps) [ none ↦ false | some p ↦ p.is_pending ]

-- A probe that does not run is neither healthy nor within a batch.
abbrev pub is_sound : Probe → Bool
is_sound p = p.is_running || not (p.is_healthy || p.is_pending)

pub probe_at-append :
    (n : ℕ) (ps : List Probe) → is_pending_at n (ps ++ (new_probe ∷ [])) ≡ is_pending_at n ps
unfolding probe_at
probe_at-append zero [] = refl
probe_at-append (suc n) [] = refl
probe_at-append zero (p ∷ ps) = refl
probe_at-append (suc n) (p ∷ ps) = probe_at-append n ps

pub all-append : (p : Probe → Bool) (xs ys : List Probe) → all p (xs ++ ys) ≡ (all p xs && all p ys)
all-append p [] ys = refl
all-append p (x ∷ xs) ys = ground (arith, all-append p xs ys)

pub length-put_probe :
    (n : ℕ) (new : Probe) (ps : List Probe) → length (put_probe n new ps) ≡ length ps
unfolding put_probe
length-put_probe n new [] = refl
length-put_probe zero new (p ∷ ps) = refl
length-put_probe (suc n) new (p ∷ ps) = ground (arith, length-put_probe n new ps)

pub sum_of-put_probe :
    (f : Probe → ℕ) (n : ℕ) (new old : Probe) (ps : List Probe)
    → probe_at n ps ≡ some old
    → sum_of f (put_probe n new ps) + f old ≡ sum_of f ps + f new
unfolding put_probe probe_at
sum_of-put_probe f n new old [] h = absurd (ground arith)
sum_of-put_probe f zero new old (p ∷ ps) h = ground arith
sum_of-put_probe f (suc n) new old (p ∷ ps) h = ground (arith, sum_of-put_probe f n new old ps)

pub all-put_probe :
    (q : Probe → Bool) (n : ℕ) (new : Probe) (ps : List Probe)
    → all q ps ≡ true
    → q new ≡ true
    → all q (put_probe n new ps) ≡ true
unfolding put_probe
all-put_probe q n new [] h e = refl
all-put_probe q zero new (p ∷ ps) h e = ground arith
all-put_probe q (suc n) new (p ∷ ps) h e = ground (arith, all-put_probe q n new ps)

pub all-probe_at :
    (q : Probe → Bool) (n : ℕ) (ps : List Probe) {p : Probe}
    → all q ps ≡ true
    → probe_at n ps ≡ some p
    → q p ≡ true
unfolding probe_at
all-probe_at q n [] h e = absurd (ground arith)
all-probe_at q zero (x ∷ ps) h e = ground arith
all-probe_at q (suc n) (x ∷ ps) {p} h e = ground (arith, all-probe_at q n ps {p = p})

pub probe_at-put_probe :
    (n m : ℕ) (new old : Probe) (ps : List Probe)
    → probe_at n ps ≡ some old
    → probe_at m (put_probe n new ps) ≡ (if n == m then some new else probe_at m ps)
unfolding put_probe probe_at
probe_at-put_probe n m new old [] h = absurd (ground arith)
probe_at-put_probe zero zero new old (p ∷ ps) h = ground arith
probe_at-put_probe zero (suc m) new old (p ∷ ps) h = ground arith
probe_at-put_probe (suc n) zero new old (p ∷ ps) h = ground arith
probe_at-put_probe (suc n) (suc m) new old (p ∷ ps) h =
    ground (arith, probe_at-put_probe n m new old ps)

pub has_batch-without_batch :
    (n m : ℕ) (bs : List (ℕ × ℕ))
    → has_batch m (without_batch n bs) ≡ (if n == m then false else has_batch m bs)
unfolding without_batch
has_batch-without_batch n m [] = ground arith
has_batch-without_batch n m ((k, t) ∷ bs) = ground (arith, has_batch-without_batch n m bs)

pub put_probe-same :
    (n : ℕ) (ps : List Probe) {p : Probe} → probe_at n ps ≡ some p → put_probe n p ps ≡ ps
unfolding put_probe probe_at
put_probe-same n [] h = refl
put_probe-same zero (x ∷ ps) h = ground arith
put_probe-same (suc n) (x ∷ ps) {p} h = ground (arith, put_probe-same n ps {p = p})

pub put_probe-twice :
    (n : ℕ) (new mid : Probe) (ps : List Probe)
    → put_probe n new (put_probe n mid ps) ≡ put_probe n new ps
unfolding put_probe
put_probe-twice n new mid [] = refl
put_probe-twice zero new mid (p ∷ ps) = refl
put_probe-twice (suc n) new mid (p ∷ ps) = ground (arith, put_probe-twice n new mid ps)

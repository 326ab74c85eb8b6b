-- ===== src/Kernel/TmpFs/Moves/Roots.antt =====
-- The way from a directory of tee/kernel/src/fs/node/tmpfs.rs up to the root: that there is one, and that the loop of
-- `rename` goes along it.
use mushroom.Prelude.{
  ℕ, zero, suc, ◌<◌, ◌≡◌, ◌≢◌, sym, ap, ◌∙◌, Bool, none, some, ◌==◌, ==_iff, inl, inr, Bool-cases,
  arith,
}
use mathlib.Core.Path.{subst}
use mushroom.Prelude.ErrorKind.{ok}
use mushroom.Kernel.TmpFs.Names.{Name}
use mushroom.Kernel.TmpFs.{Entry, dir, Location, root, directory, TmpFs}
use mushroom.Kernel.TmpFs.Moves.{walk}
use mushroom.Kernel.TmpFs.Moves.Trees.{location_at}

-- From a directory the root is reached.
pub data Climbs (l : ℕ → Location) : ℕ → Type 0 where
  top : {k : ℕ} → l k ≡ root → Climbs l k
  up : {k : ℕ} (p : ℕ) (n : Name) → l k ≡ directory p n → Climbs l p → Climbs l k

abbrev pub height : {l : ℕ → Location} {k : ℕ} → Climbs l k → ℕ
height (top e) = 0
height (up p n e c) = suc (height c)

-- And not through one directory.
pub data Avoids (l : ℕ → Location) (j : ℕ) : ℕ → Type 0 where
  top : {k : ℕ} → k ≢ j → l k ≡ root → Avoids l j k
  up : {k : ℕ} (p : ℕ) (n : Name) → k ≢ j → l k ≡ directory p n → Avoids l j p → Avoids l j k

Avoids-Climbs :
    {l l' : ℕ → Location} {j k : ℕ} → ((x : ℕ) → x ≢ j → l' x ≡ l x) → Avoids l j k → Climbs l' k
Avoids-Climbs s (top n e) = Climbs.top (s _ n ∙ e)
Avoids-Climbs s (up p m n e a) = Climbs.up p m (s _ n ∙ e) (Avoids-Climbs s a)

-- One directory gets a new place that is not below it.
pub moved-Climbs :
    {l l' : ℕ → Location} {j d k : ℕ} (n : Name)
    → l' j ≡ directory d n
    → ((x : ℕ) → x ≢ j → l' x ≡ l x)
    → Avoids l j d
    → Climbs l k
    → Climbs l' k
moved-Climbs {l} {l'} {j} {d} {k} n e s a (top r) = elim (Bool-cases (k == j)) [
  | inl q ↦
      Climbs.up d n (subst (λ x. l' x ≡ directory d n) (sym ((==_iff k j).0 q)) e)
        (Avoids-Climbs s a)
  | inr q ↦ Climbs.top (s k (λ z. ground (arith, q, z)) ∙ r)
]
moved-Climbs {l} {l'} {j} {d} {k} n e s a (up p m r c) = elim (Bool-cases (k == j)) [
  | inl q ↦
      Climbs.up d n (subst (λ x. l' x ≡ directory d n) (sym ((==_iff k j).0 q)) e)
        (Avoids-Climbs s a)
  | inr q ↦ Climbs.up p m (s k (λ z. ground (arith, q, z)) ∙ r) (moved-Climbs n e s a c)
]

-- One directory gets a new name where it is.
pub renamed-Climbs :
    {l l' : ℕ → Location} {j d k : ℕ} (old new : Name)
    → l j ≡ directory d old
    → l' j ≡ directory d new
    → ((x : ℕ) → x ≢ j → l' x ≡ l x)
    → Climbs l k
    → Climbs l' k
renamed-Climbs {l} {l'} {j} {d} {k} old new e e' s (top r) = elim (Bool-cases (k == j)) [
  | inl q ↦ absurd (let z : l j ≡ root = subst (λ x. l x ≡ root) ((==_iff k j).0 q) r in cc)
  | inr q ↦ Climbs.top (s k (λ z. ground (arith, q, z)) ∙ r)
]
renamed-Climbs {l} {l'} {j} {d} {k} old new e e' s (up p m r c) = elim (Bool-cases (k == j)) [
  | inl q ↦
      let z : l j ≡ directory p m = subst (λ x. l x ≡ directory p m) ((==_iff k j).0 q) r in
      let w : d ≡ p = cc in
      Climbs.up p new
        (subst (λ x. l' x ≡ directory p new) (sym ((==_iff k j).0 q))
          (subst (λ x. l' j ≡ directory x new) w e'))
        (renamed-Climbs old new e e' s c)
  | inr q ↦ Climbs.up p m (s k (λ z. ground (arith, q, z)) ∙ r) (renamed-Climbs old new e e' s c)
]

-- No directory is its own parent.
no_loop : {l : ℕ → Location} {k p : ℕ} (n : Name) → Climbs l k → k ≡ p → l p ≡ directory p n → ⊥
no_loop n (top e) q f = cc
no_loop {l} n (up r m e c) q f =
    let z : directory r m ≡ directory _ n = sym e ∙ (ap l q ∙ f) in no_loop n c (cc) f

-- The loop ends, with more fuel than there are directories on the way.
pub walk-ne-none :
    (alive : ℕ → Bool) (fuel : ℕ) (t : TmpFs) (e : Entry) {d : ℕ} (c : Climbs (location_at t) d)
    → height c < fuel
    → walk alive fuel t e d ≢ none
unfolding walk
walk-ne-none alive zero t e c h q = absurd (omega arith)
walk-ne-none alive (suc fuel) t e (top r) h q = ground (arith, q, r)
walk-ne-none alive (suc fuel) t e (up p n r c) h q =
    ground (arith, q, r, walk-ne-none alive fuel t e c)

-- Where it ends well the way avoids the entry.
pub walk-Avoids :
    (alive : ℕ → Bool) (fuel : ℕ) (t : TmpFs) (j : ℕ) {d : ℕ}
    → Climbs (location_at t) d
    → walk alive fuel t (dir j) d ≡ some (ok tt)
    → Avoids (location_at t) j d
unfolding walk
walk-Avoids alive zero t j c q = cc
walk-Avoids alive (suc fuel) t j (top r) q = top (λ z. ground (arith, q, z)) r
walk-Avoids alive (suc fuel) t j {d} (up p n r c) q =
    let other : p ≢ d = λ z. no_loop n c z (subst (λ x. location_at t d ≡ directory x n) z r) in
    up p n (λ z. ground (arith, q, z)) r
      (walk-Avoids alive fuel t j c (ground (arith, q, r, other)))

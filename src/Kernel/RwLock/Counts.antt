-- ===== src/Kernel/RwLock/Counts.antt =====
-- How many processes of tee/kernel/src/spin/rwlock.rs read, write and reload.
use mushroom.Prelude.{
  ℕ, zero, suc, ◌+◌, ◌≤◌, ◌≡◌, refl, List, [], ◌∷◌, some, get_elem?, set, replicate, length, arith,
}
use mathlib.Core.Path.{subst}
use mushroom.Kernel.RwLock.{int_min, Process, idle, reloading, swapping, reading, writing}

abbrev pub reads : Process → ℕ
reads reading = 1
reads _ = 0

abbrev pub writes : Process → ℕ
writes writing = 1
writes _ = 0

-- Between a failed `fetch_add` and the end of its `reload`.
abbrev pub reloads : Process → ℕ
reloads reloading = 1
reloads (swapping v) = 1
reloads _ = 0

abbrev pub readers : List Process → ℕ
readers [] = 0
readers (p ∷ ps) = reads p + readers ps

abbrev pub writers : List Process → ℕ
writers [] = 0
writers (p ∷ ps) = writes p + writers ps

abbrev pub reloaders : List Process → ℕ
reloaders [] = 0
reloaders (p ∷ ps) = reloads p + reloaders ps

-- A value to be exchanged is that of a lock held for writing.
abbrev pub HasValue : Process → Type 0
HasValue (swapping v) = int_min ≤ v
HasValue _ = Unit

abbrev pub AllValues : List Process → Type 0
AllValues [] = Unit
AllValues (p ∷ ps) = HasValue p × AllValues ps

one : (p : Process) → reads p + writes p + reloads p ≤ 1
one idle = omega arith
one reloading = omega arith
one (swapping v) = omega arith
one reading = omega arith
one writing = omega arith

pub counts-le : (ps : List Process) → readers ps + writers ps + reloaders ps ≤ length ps
counts-le [] = omega arith
counts-le (p ∷ ps) = omega (arith, one p, counts-le ps)

-- The counts without one process, and with it before and after a change.
pub record Others (ps : List Process) (k : ℕ) (p : Process) : Type 0 where
  pub r : ℕ
  pub w : ℕ
  pub l : ℕ
  pub r_was : readers ps ≡ r + reads p
  pub w_was : writers ps ≡ w + writes p
  pub l_was : reloaders ps ≡ l + reloads p
  pub r_is : (q : Process) → readers (set ps k q) ≡ r + reads q
  pub w_is : (q : Process) → writers (set ps k q) ≡ w + writes q
  pub l_is : (q : Process) → reloaders (set ps k q) ≡ l + reloads q

pub others : (ps : List Process) (k : ℕ) (p : Process) → get_elem? ps k ≡ some p → Others ps k p
others [] k p h = cc
others (x ∷ ps) zero p h =
    let e : x ≡ p = ground (arith, h) in
    record {
      r = readers ps;
      w = writers ps;
      l = reloaders ps;
      r_was = rw e (omega arith);
      w_was = rw e (omega arith);
      l_was = rw e (omega arith);
      r_is = λ q. omega arith;
      w_is = λ q. omega arith;
      l_is = λ q. omega arith;
    }
others (x ∷ ps) (suc k) p h =
    let o = others ps k p h in
    record {
      r = reads x + o.r;
      w = writes x + o.w;
      l = reloads x + o.l;
      r_was = omega (arith, o.r_was);
      w_was = omega (arith, o.w_was);
      l_was = omega (arith, o.l_was);
      r_is = λ q. omega (arith, o.r_is q);
      w_is = λ q. omega (arith, o.w_is q);
      l_is = λ q. omega (arith, o.l_is q);
    }

pub set-AllValues :
    (ps : List Process) (k : ℕ) (q : Process) → AllValues ps → HasValue q → AllValues (set ps k q)
set-AllValues [] k q a h = tt
set-AllValues (x ∷ ps) zero q a h = (h, a.1)
set-AllValues (x ∷ ps) (suc k) q a h = (a.0, set-AllValues ps k q a.1 h)

pub value_at :
    (ps : List Process) (k : ℕ) (p : Process) → AllValues ps → get_elem? ps k ≡ some p → HasValue p
value_at [] k p a h = cc
value_at (x ∷ ps) zero p a h = let e : x ≡ p = ground (arith, h) in subst HasValue e a.0
value_at (x ∷ ps) (suc k) p a h = value_at ps k p a.1 h

pub new_counts :
    (n : ℕ)
    → (readers (replicate n idle) ≡ 0)
      × (writers (replicate n idle) ≡ 0)
      × AllValues (replicate n idle)
new_counts zero = (refl, refl, tt)
new_counts (suc n) = let (r, w, a) = new_counts n in (omega (arith, r), omega (arith, w), (tt, a))

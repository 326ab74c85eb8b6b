-- ===== src/Kernel/RwLock/Exclusion.antt =====
-- Mutual exclusion of the guards of tee/kernel/src/spin/rwlock.rs.
use mushroom.Prelude.{
  ℕ, ◌+◌, ◌≤◌, ◌≡◌, ◌↔◌, refl, sym, true, false, length, length-set, length-replicate, leb, ◌==◌,
  inl, inr, ◌⊎◌, Bool-cases, arith,
}
use mushroom.Kernel.RwLock.{
  int_min, reload_limit, sub_one, is_shared, Process, idle, reloading, swapping, reading, writing,
  Attempt, read, write, read_outcome, try_read, reload_next, swap, try_write, access, RwLock, new,
  after, Step, step, Steps, start, next,
}
use mushroom.Kernel.RwLock.Counts.{
  reads, writes, reloads, readers, writers, reloaders, HasValue, AllValues, counts-le, others,
  new_counts, set-AllValues, value_at,
}

-- As many processes as the state can count apart: 2 ^ 62.
abbrev pub limit : ℕ
limit = 4611686018427387904

abbrev pub Free : ℕ → ℕ → ℕ → ℕ → Type 0
Free s r w l = (w ≡ 0) × (s ≡ r)

abbrev pub Held : ℕ → ℕ → ℕ → ℕ → Type 0
Held s r w l = (w ≡ 1) × (r ≡ 0) × (int_min ≤ s) × (s ≤ int_min + l)

-- Without a writer the state is the number of readers. With one, which is then alone, it is the least
-- integer and at most one more for every reader that failed and has not ended its reload.
abbrev pub IsState : ℕ → ℕ → ℕ → ℕ → Type 0
IsState s r w l = Free s r w l ⊎ Held s r w l

abbrev pub IsValid : RwLock → Type 0
IsValid l =
    IsState l.state (readers l.processes) (writers l.processes) (reloaders l.processes)
    × AllValues l.processes
    × (length l.processes ≤ limit)

-- One access, on the counts without the process that makes it.
abbrev Kept : ℕ → ℕ → ℕ → ℕ × Process → Type 0
Kept r w l (s, q) = IsState s (r + reads q) (w + writes q) (l + reloads q) × HasValue q

module _ (s r w l : ℕ) (small : r + w + l ≤ limit) where
  Free-is_shared : Free s r w l → is_shared s ≡ true
  Free-is_shared f = ground (arith, f.0, f.1)

  Held-is_shared : Held s r w l → is_shared s ≡ false
  Held-is_shared h = ground (arith, h.2)

  Held-reload_limit : Held s r w l → leb s reload_limit ≡ true
  Held-reload_limit h = ground (arith, h.3)

  try_read-Kept : IsState s r w l → Kept r w l (try_read s)
  unfolding try_read read_outcome
  try_read-Kept (inl f) =
      rw (Kept, Free-is_shared f) (inl (omega (arith, f.0), omega (arith, f.0, f.1)), tt)
  try_read-Kept (inr h) =
      rw (Kept, Held-is_shared h, Held-reload_limit h)
        (
          inr (omega (arith, h.0), omega (arith, h.1), omega (arith, h.2, h.3), omega (arith, h.3)),
          tt,
        )

module _ (s r w l : ℕ) (small : r + w + (l + 1) ≤ limit) where
  reload_next-Kept : IsState s r w (l + 1) → Kept r w l (s, reload_next s)
  unfolding reload_next
  reload_next-Kept (inl f) =
      rw (Kept, Free-is_shared s r w (l + 1) small f)
        (inl (omega (arith, f.0), omega (arith, f.1)), tt)
  reload_next-Kept (inr h) =
      rw (Kept, Held-is_shared s r w (l + 1) small h, Held-reload_limit s r w (l + 1) small h)
        (inr (omega (arith, h.0), omega (arith, h.1), h.2, omega (arith, h.3)), h.2)

  swap-Kept : (v : ℕ) → int_min ≤ v → IsState s r w (l + 1) → Kept r w l (swap v s)
  unfolding swap
  swap-Kept v m i = elim (Bool-cases (s == v)) [
    | inl p ↦ rw (Kept, p) (swapped p i, tt)
    | inr p ↦ rw (Kept, p) (reload_next-Kept i)
  ]
    where
      swapped : (s == v) ≡ true → IsState s r w (l + 1) → IsState int_min (r + 0) (w + 0) (l + 0)
      swapped p (inl f) = absurd (ground (arith, p, m, f.1))
      swapped p (inr h) = inr (omega (arith, h.0), omega (arith, h.1), omega arith, omega arith)

module _ (s r w l : ℕ) (small : r + w + l ≤ limit) where
  try_write-Kept : IsState s r w l → Kept r w l (try_write s)
  unfolding try_write
  try_write-Kept i = elim (Bool-cases (s == 0)) [
    | inl p ↦ rw (Kept, p) (taken p i, tt)
    | inr p ↦ rw (Kept, p) (left i, tt)
  ]
    where
      taken : (s == 0) ≡ true → IsState s r w l → IsState int_min (r + 0) (w + 1) (l + 0)
      taken p (inl f) = inr (omega (arith, f.0), ground (arith, p, f.1), omega arith, omega arith)
      taken p (inr h) = absurd (ground (arith, p, h.2))

      left : IsState s r w l → IsState s (r + 0) (w + 0) (l + 0)
      left (inl f) = inl (omega (arith, f.0), omega (arith, f.1))
      left (inr h) = inr (omega (arith, h.0), omega (arith, h.1), h.2, omega (arith, h.3))

drop_read-Kept :
    (s r w l : ℕ) → r + 1 ≤ limit → IsState s (r + 1) w l → Kept r w l (sub_one s, idle)
drop_read-Kept s r w l small (inl f) = (inl (omega (arith, f.0), omega (arith, f.1, small)), tt)
drop_read-Kept s r w l small (inr h) = absurd (omega (arith, h.1))

drop_write-Kept : (s r w l : ℕ) → IsState s r (w + 1) l → Kept r w l (0, idle)
drop_write-Kept s r w l (inl f) = absurd (omega (arith, f.0))
drop_write-Kept s r w l (inr h) = (inl (omega (arith, h.0), omega (arith, h.1)), tt)

same_counts :
    (s r w l r' w' l' : ℕ) → r ≡ r' → w ≡ w' → l ≡ l' → IsState s r w l → IsState s r' w' l'
same_counts s r w l r' w' l' a b c i = rw (sym a, sym b, sym c) i

-- Every access of every process keeps the state true to the guards.
access-Kept :
    (a : Attempt) (p : Process) (s r w l : ℕ)
    → r + reads p + (w + writes p) + (l + reloads p) ≤ limit
    → IsState s (r + reads p) (w + writes p) (l + reloads p)
    → HasValue p
    → Kept r w l (access a p s)
unfolding access
access-Kept read idle s r w l small i m =
    try_read-Kept s r w l (omega (arith, small))
      (same_counts s _ _ _ r w l (omega arith) (omega arith) (omega arith) i)
access-Kept write idle s r w l small i m =
    try_write-Kept s r w l (omega (arith, small))
      (same_counts s _ _ _ r w l (omega arith) (omega arith) (omega arith) i)
access-Kept a reloading s r w l small i m =
    reload_next-Kept s r w l (omega (arith, small))
      (same_counts s _ _ _ r w (l + 1) (omega arith) (omega arith) refl i)
access-Kept a (swapping v) s r w l small i m =
    swap-Kept s r w l (omega (arith, small)) v m
      (same_counts s _ _ _ r w (l + 1) (omega arith) (omega arith) refl i)
access-Kept a reading s r w l small i m =
    drop_read-Kept s r w l (omega (arith, small))
      (same_counts s _ _ _ (r + 1) w l refl (omega arith) (omega arith) i)
access-Kept a writing s r w l small i m =
    drop_write-Kept s r w l (same_counts s _ _ _ r (w + 1) l (omega arith) refl (omega arith) i)

-- One step keeps the lock valid.
Step-IsValid : {l m : RwLock} → IsValid l → Step l m → IsValid m
unfolding after
Step-IsValid {l} (i, a, n) (step t k p at) =
    let o = others l.processes k p at in
    let q = (access t p l.state).1 in
    let kept =
      access-Kept t p l.state o.r o.w o.l
        (omega (arith, counts-le l.processes, o.r_was, o.w_was, o.l_was, n))
        (same_counts l.state _ _ _ _ _ _ o.r_was o.w_was o.l_was i)
        (value_at l.processes k p a at) in
    (
      same_counts _ _ _ _ _ _ _ (sym (o.r_is q)) (sym (o.w_is q)) (sym (o.l_is q)) kept.0,
      set-AllValues l.processes k q a kept.1,
      rw (length-set l.processes k q) n,
    )

new-IsValid : (n : ℕ) → n ≤ limit → IsValid (new n)
unfolding new
new-IsValid n h =
    let (r, w, a) = new_counts n in (inl (w, sym r), a, rw (length-replicate n idle) h)

Steps-IsValid : {l m : RwLock} → IsValid l → Steps l m → IsValid m
Steps-IsValid v start = v
Steps-IsValid v (next s t) = Step-IsValid (Steps-IsValid v s) t

-- However the accesses of at most 2 ^ 62 processes interleave, there is no other guard beside that of a
-- writer, and the lock's state tells what there is: without a writer it is the number of readers, and
-- with one it is negative, however often readers have tried and added one to it.
pub Steps-Exclusion :
    (n : ℕ) (m : RwLock)
    → n ≤ limit
    → Steps (new n) m
    → ((writers m.processes ≡ 0) × (m.state ≡ readers m.processes) × (m.state ≤ limit))
      ⊎ ((writers m.processes ≡ 1) × (readers m.processes ≡ 0) × (is_shared m.state ≡ false))
Steps-Exclusion n m h s = go (Steps-IsValid (new-IsValid n h) s)
  where
    go :
        IsValid m
        → ((writers m.processes ≡ 0) × (m.state ≡ readers m.processes) × (m.state ≤ limit))
          ⊎ ((writers m.processes ≡ 1) × (readers m.processes ≡ 0) × (is_shared m.state ≡ false))
    go (inl f, a, k) = inl (f.0, f.1, omega (arith, f.1, counts-le m.processes, k))
    go (inr f, a, k) = inr (f.0, f.1, ground (arith, f.2))

read_gets : (s : ℕ) → (read_outcome s ≡ reading) ↔ (is_shared s ≡ true)
unfolding read_outcome
read_gets s = ground arith

write_gets : (s : ℕ) → ((try_write s).1 ≡ writing) ↔ (s ≡ 0)
unfolding try_write
write_gets s = ground arith

-- In every state that at most 2 ^ 62 processes reach from a new lock, an attempt to read gets its guard if and only if there is no writer,
-- and an attempt to write if and only if there is no guard at all.
pub access-Steps :
    (n : ℕ) (m : RwLock)
    → n ≤ limit
    → Steps (new n) m
    → (((access read idle m.state).1 ≡ reading) ↔ (writers m.processes ≡ 0))
      × (((access write idle m.state).1 ≡ writing)
          ↔ (readers m.processes + writers m.processes ≡ 0))
unfolding access try_read
access-Steps n m h s = go (Steps-Exclusion n m h s)
  where
    go :
        ((writers m.processes ≡ 0) × (m.state ≡ readers m.processes) × (m.state ≤ limit))
          ⊎ ((writers m.processes ≡ 1) × (readers m.processes ≡ 0) × (is_shared m.state ≡ false))
        → (((access read idle m.state).1 ≡ reading) ↔ (writers m.processes ≡ 0))
          × (((access write idle m.state).1 ≡ writing)
              ↔ (readers m.processes + writers m.processes ≡ 0))
    go (inl f) = ground (arith, f.0, f.1, f.2, read_gets m.state, write_gets m.state)
    go (inr f) = ground (arith, f.0, f.1, f.2, read_gets m.state, write_gets m.state)

-- ===== src/Kernel/FileLock/Exclusion.antt =====
-- tee/kernel/src/fs/fd.rs, `FileLock`: the counter counts the holders, and an exclusive holder is alone.
use mushroom.Prelude.{
  ℕ, zero, suc, ◌+◌, ap, ◌∙◌, get_or-set, ◌<◌, Bool, true, false, List, [], ◌∷◌, ◌≡◌, refl, ◌⊎◌,
  inl, inr, get_or, set, length, length-set, if◌then◌else◌, Bool-cases, arith,
}
use mushroom.Prelude.Int.{ℤ, pos, negsuc, ltb_ℤ, eqb_ℤ}
use mushroom.Kernel.FileLock.{
  FileLockState, unlocked, shared, exclusive, Locks, increment, decrement, notify, release, unlock,
  Attempt, locked, would_block, waits, after_failure, lock_shared, lock_exclusive,
}

abbrev shares : FileLockState → ℕ
shares shared = 1
shares _ = 0

abbrev owns : FileLockState → ℕ
owns exclusive = 1
owns _ = 0

-- How many locks are held shared, and how many exclusively.
abbrev pub sharers : List FileLockState → ℕ
sharers [] = 0
sharers (s ∷ ss) = shares s + sharers ss

abbrev pub owners : List FileLockState → ℕ
owners [] = 0
owners (s ∷ ss) = owns s + owners ss

-- The counter is the number of shared holders when there is no exclusive one, and -1 when there is
-- one, which is then the only holder.
abbrev pub IsValid : Locks → Type 0
IsValid l =
    ((l.counter ≡ pos (sharers (l.states))) × (owners (l.states) ≡ 0))
    ⊎ ((l.counter ≡ negsuc 0) × (owners (l.states) ≡ 1) × (sharers (l.states) ≡ 0))

sharers-set :
    (ss : List FileLockState) (i : ℕ) (s : FileLockState)
    → i < length ss
    → (sharers (set ss i s) + shares (get_or ss i unlocked) ≡ sharers ss + shares s)
      × (owners (set ss i s) + owns (get_or ss i unlocked) ≡ owners ss + owns s)
sharers-set [] i s h = elim h [ ]
sharers-set (x ∷ ss) zero s h = (omega arith, omega arith)
sharers-set (x ∷ ss) (suc i) s h = (
  omega (arith, (sharers-set ss i s (omega arith)).0),
  omega (arith, (sharers-set ss i s (omega arith)).1),
)

notify_if-IsValid : (b : Bool) (l : Locks) → IsValid l → IsValid (if b then notify l else l)
notify_if-IsValid true l v = v
notify_if-IsValid false l v = v

decrement_pos : (a n : ℕ) → n + 1 ≡ a → decrement (pos a) ≡ pos n
decrement_pos zero n h = absurd (omega arith)
decrement_pos (suc a) n h = ap pos (omega arith)

-- Releasing a lock whose state is out of the list already, of so many holders with it.
release-IsValid :
    (s : FileLockState) (l : Locks) (a o : ℕ)
    → sharers (l.states) + shares s ≡ a
    → owners (l.states) + owns s ≡ o
    → ((l.counter ≡ pos a) × (o ≡ 0)) ⊎ ((l.counter ≡ negsuc 0) × (o ≡ 1) × (a ≡ 0))
    → IsValid (release s l)
unfolding release
release-IsValid unlocked l a o p q (inl (c, e)) = inl (c ∙ ap pos (omega arith), omega arith)
release-IsValid unlocked l a o p q (inr (c, e, d)) = inr (c, omega arith, omega arith)
release-IsValid shared l a o p q (inl (c, e)) =
    notify_if-IsValid (eqb_ℤ (l.counter) (pos 1)) (record l { counter = decrement (l.counter) })
      (inl (ap decrement c ∙ decrement_pos _ _ p, omega arith))
release-IsValid shared l a o p q (inr (c, e, d)) = absurd (omega arith)
release-IsValid exclusive l a o p q (inl (c, e)) = absurd (omega arith)
release-IsValid exclusive l a o p q (inr (c, e, d)) = inl (ap pos (omega arith), omega arith)

-- Unlocking any lock of a valid record, held or not, leaves it valid.
pub unlock-IsValid : (i : ℕ) (l : Locks) → i < length (l.states) → IsValid l → IsValid (unlock i l)
unfolding unlock
unlock-IsValid i l h v =
    release-IsValid _ _ (sharers (l.states)) (owners (l.states))
      (omega (arith, (sharers-set (l.states) i unlocked h).0))
      (omega (arith, (sharers-set (l.states) i unlocked h).1)) v

release-states : (s : FileLockState) (l : Locks) → (release s l).states ≡ l.states
unfolding release
release-states unlocked l = refl
release-states shared l = elim (Bool-cases (eqb_ℤ (l.counter) (pos 1))) [
  | inl p ↦ rw p refl
  | inr p ↦ rw p refl
]
release-states exclusive l = refl

-- What a call for a lock in the mode `want` promises.
abbrev pub Attempts : FileLockState → ℕ → Bool → Attempt → Type 0
Attempts want i non_blocking (locked l) = IsValid l × (get_or (l.states) i unlocked ≡ want)
Attempts want i non_blocking (would_block l) =
    IsValid l × (get_or (l.states) i unlocked ≡ unlocked) × (non_blocking ≡ false)
Attempts want i non_blocking (waits l) =
    IsValid l × (get_or (l.states) i unlocked ≡ unlocked) × (non_blocking ≡ true)

failed :
    (want : FileLockState) (i : ℕ) (b : Bool) (l : Locks)
    → IsValid l
    → get_or (l.states) i unlocked ≡ unlocked
    → Attempts want i b (after_failure b l)
failed want i true l v g = (v, g, refl)
failed want i false l v g = (v, g, refl)

get_or-set_self :
    (ss : List FileLockState) (i : ℕ) (s : FileLockState)
    → i < length ss
    → get_or (set ss i s) i unlocked ≡ s
get_or-set_self ss i s h = ground (arith, get_or-set ss i i s unlocked h)

-- A lock that has been given up is unlocked, among as many locks as before.
gives_up :
    (i : ℕ) (l : Locks)
    → i < length (l.states)
    → (get_or ((unlock i l).states) i unlocked ≡ unlocked) × (i < length ((unlock i l).states))
unfolding unlock
gives_up i l h =
    rw
      (release-states (get_or (l.states) i unlocked)
        (record l { states = set (l.states) i unlocked }))
      (get_or-set_self (l.states) i unlocked h, omega (arith, length-set (l.states) i unlocked))

-- Taking a lock that is unlocked adds it to the holders.
takes :
    (l : Locks) (i : ℕ) (s : FileLockState)
    → i < length (l.states)
    → get_or (l.states) i unlocked ≡ unlocked
    → (sharers (set (l.states) i s) ≡ sharers (l.states) + shares s)
      × (owners (set (l.states) i s) ≡ owners (l.states) + owns s)
takes l i s h g = (
  omega (arith, (sharers-set (l.states) i s h).0, ap shares g),
  omega (arith, (sharers-set (l.states) i s h).1, ap owns g),
)

pos_not_negative : (c : ℤ) (n : ℕ) → c ≡ pos n → ltb_ℤ c (pos 0) ≡ false
pos_not_negative c n e = rw e (ground arith)

minus_one_negative : (c : ℤ) → c ≡ negsuc 0 → ltb_ℤ c (pos 0) ≡ true
minus_one_negative c e = rw e refl

eqb_ℤ_zero : (n : ℕ) → eqb_ℤ (pos n) (pos 0) ≡ true → n ≡ 0
eqb_ℤ_zero n h = ground arith

increments : (c : ℤ) (n m : ℕ) → c ≡ pos n → m ≡ n + 1 → increment c ≡ pos m
increments c n m e f = ap increment e ∙ ap pos (omega arith)

module _ (i : ℕ) (b : Bool) (l : Locks) (h : i < length (l.states)) (v : IsValid l) where
  after : IsValid (unlock i l)
  after = unlock-IsValid i l h v

  taken :
      (s : FileLockState)
      → (sharers (set ((unlock i l).states) i s) ≡ sharers ((unlock i l).states) + shares s)
        × (owners (set ((unlock i l).states) i s) ≡ owners ((unlock i l).states) + owns s)
  taken s = takes (unlock i l) i s (gives_up i l h).1 (gives_up i l h).0

  holds : (s : FileLockState) → get_or (set ((unlock i l).states) i s) i unlocked ≡ s
  holds s = get_or-set_self _ _ _ (gives_up i l h).1

  -- A round of `lock_shared` for a lock of a valid record leaves the record valid, so that the holder of
  -- an exclusive lock is alone; it ends with this lock shared, or with this lock given up and EAGAIN,
  -- only if `non_blocking` is not set, or waiting, only if it is set.
  pub lock_shared-Attempts : Attempts shared i b (lock_shared i b l)
  unfolding lock_shared
  lock_shared-Attempts = elim after [
    | inr (c, _, _) ↦
        rw (minus_one_negative _ c) (failed shared i b (unlock i l) after (gives_up i l h).0)
    | inl (c, e) ↦
        rw (pos_not_negative _ _ c)
          (inl (increments _ _ _ c (taken shared).0, omega (arith, (taken shared).1)), holds shared)
  ]

  -- A round of `lock_exclusive` for a lock of a valid record leaves the record valid, so that the holder of
  -- an exclusive lock is alone; it ends with this lock exclusive, or with this lock given up and EAGAIN,
  -- only if `non_blocking` is not set, or waiting, only if it is set.
  pub lock_exclusive-Attempts : Attempts exclusive i b (lock_exclusive i b l)
  unfolding lock_exclusive
  lock_exclusive-Attempts = elim (Bool-cases (eqb_ℤ ((unlock i l).counter) (pos 0))) [
    | inr p ↦ rw p (failed exclusive i b (unlock i l) after (gives_up i l h).0)
    | inl p ↦ rw p (
      elim after [
        | inr (c, _, _) ↦ absurd (ground (arith, p, c))
        | inl (c, e) ↦ inr (
          refl,
          omega (arith, (taken exclusive).1),
          omega (arith, (taken exclusive).0, eqb_ℤ_zero _ (rw c at p)),
        )
      ],
      holds exclusive,
    )
  ]

-- ===== src/Kernel/FileLock.antt =====
-- tee/kernel/src/fs/fd.rs: `FileLockRecord`, the advisory lock that the open files of one inode share,
-- and `FileLock`, one open file's part of it. A lock is its position in the list of the record's locks.
pub mod Exclusion
use mushroom.Prelude.{
  ℕ, zero, suc, ◌+◌, Bool, true, false, List, replicate, get_or, set, if◌then◌else◌,
}
use mushroom.Prelude.Int.{ℤ, pos, negsuc, ltb_ℤ, eqb_ℤ}

pub data FileLockState : Type 0 where
  unlocked shared exclusive : FileLockState

-- The record's counter, the state of each of its locks, and the notifications sent so far.
pub record Locks : Type 0 where
  pub counter : ℤ
  pub states : List FileLockState
  pub notifications : ℕ

-- `FileLockRecord::new` with so many fresh `FileLock`s
pub new : ℕ → Locks
new n = record { counter = pos 0; states = replicate n unlocked; notifications = 0 }

-- `value + 1` and `value - 1`
abbrev pub increment : ℤ → ℤ
increment (pos n) = pos (suc n)
increment (negsuc zero) = pos 0
increment (negsuc (suc n)) = negsuc n

abbrev pub decrement : ℤ → ℤ
decrement (pos zero) = negsuc 0
decrement (pos (suc n)) = pos n
decrement (negsuc n) = negsuc (suc n)

abbrev pub notify : Locks → Locks
notify l = record l { notifications = l.notifications + 1 }

-- `unlock_internal` in each of the lock's previous states.
pub release : FileLockState → Locks → Locks
release unlocked l = l
release shared l =
    let l' = record l { counter = decrement (l.counter) } in
    if eqb_ℤ (l.counter) (pos 1) then notify l' else l'
release exclusive l = notify (record l { counter = pos 0 })

-- `FileLock::unlock`, which dropping the lock also calls.
pub unlock : ℕ → Locks → Locks
unlock i l =
    release (get_or (l.states) i unlocked) (record l { states = set (l.states) i unlocked })

-- How one round of a lock call ends: with the lock, with EAGAIN, or waiting for a notification before
-- the next round.
pub data Attempt : Type 0 where
  locked would_block waits : Locks → Attempt

-- `wait.ok_or_else(|| err!(Again))?.await`, where `wait` is there if the call is `non_blocking`.
abbrev pub after_failure : Bool → Locks → Attempt
after_failure true l = waits l
after_failure false l = would_block l

-- A round of `lock_shared`
pub lock_shared : ℕ → Bool → Locks → Attempt
lock_shared i non_blocking l =
    let l' = unlock i l in
    if ltb_ℤ (l'.counter) (pos 0)
    then after_failure non_blocking l'
    else locked (record l' { counter = increment (l'.counter); states = set (l'.states) i shared })

-- A round of `lock_exclusive`
pub lock_exclusive : ℕ → Bool → Locks → Attempt
lock_exclusive i non_blocking l =
    let l' = unlock i l in
    if eqb_ℤ (l'.counter) (pos 0)
    then locked (record l' { counter = negsuc 0; states = set (l'.states) i exclusive })
    else after_failure non_blocking l'

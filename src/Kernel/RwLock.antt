-- ===== src/Kernel/RwLock.antt =====
-- tee/kernel/src/spin/rwlock.rs: the lock's `state` is the i64 in two's complement, below 2 ^ 64, and each
-- guard or attempt is a process with the point in the code where it stands. A step is one atomic access
-- and what the code decides by its result; the accesses of all processes have one order.
mod Tests
pub mod Counts
pub mod Exclusion
use mushroom.Prelude.{
  ℕ, zero, suc, ◌+◌, ◌*◌, ◌%◌, ◌≤◌, ◌≡◌, Bool, true, false, List, [], ◌∷◌, Option, some, get_elem?,
  set, replicate, ltb, leb, ◌==◌, if◌then◌else◌,
}

-- `i64::MIN`, `RELOAD_LIMIT` and 2 ^ 64
abbrev pub int_min : ℕ
int_min = 9223372036854775808

abbrev pub reload_limit : ℕ
reload_limit = 13835058055282163712

abbrev pub modulus : ℕ
modulus = 18446744073709551616

-- `AtomicI64::fetch_add` and `fetch_sub` of one
abbrev pub add_one : ℕ → ℕ
add_one s = (s + 1) % modulus

abbrev pub sub_one : ℕ → ℕ
sub_one s = (s + 18446744073709551615) % modulus

-- The range `0..` of an i64
abbrev pub is_shared : ℕ → Bool
is_shared s = ltb s int_min

-- Where a process stands: before an attempt, before `reload`'s load, before its compare-exchange with the
-- value it saw, or with a `ReadRwLockGuard` or a `WriteRwLockGuard`.
pub data Process : Type 0 where
  idle : Process
  reloading : Process
  swapping : ℕ → Process
  reading : Process
  writing : Process

-- What an idle process tries.
pub data Attempt : Type 0 where
  read : Attempt
  write : Attempt

-- The `match` of `try_read` on the old value
pub read_outcome : ℕ → Process
read_outcome s = if is_shared s then reading else if leb s reload_limit then reloading else idle

pub try_read : ℕ → ℕ × Process
try_read s = (add_one s, read_outcome s)

-- The `match` of `reload`'s loop
pub reload_next : ℕ → Process
reload_next s = if is_shared s then idle else if leb s reload_limit then swapping s else idle

-- The `compare_exchange` of `reload`
pub swap : ℕ → ℕ → ℕ × Process
swap value s = if s == value then (int_min, idle) else (s, reload_next s)

pub try_write : ℕ → ℕ × Process
try_write s = if s == 0 then (int_min, writing) else (s, idle)

-- The next access of a process; a guard's next access is its drop.
pub access : Attempt → Process → ℕ → ℕ × Process
access read idle s = try_read s
access write idle s = try_write s
access a reloading s = (s, reload_next s)
access a (swapping value) s = swap value s
access a reading s = (sub_one s, idle)
access a writing s = (0, idle)

pub record RwLock : Type 0 where
  pub state : ℕ
  pub processes : List Process

-- `RwLock::new`, with so many processes
pub new : ℕ → RwLock
new n = record { state = 0; processes = replicate n idle }

-- The process with index `k` makes its access.
pub after : RwLock → ℕ → ℕ × Process → RwLock
after l k r = record { state = r.0; processes = set l.processes k r.1 }

pub data Step : RwLock → RwLock → Type 0 where
  step :
      {l : RwLock} (a : Attempt) (k : ℕ) (p : Process)
      → get_elem? l.processes k ≡ some p
      → Step l (after l k (access a p l.state))

pub data Steps : RwLock → RwLock → Type 0 where
  start : {l : RwLock} → Steps l l
  next : {l m n : RwLock} → Steps l m → Step m n → Steps l n

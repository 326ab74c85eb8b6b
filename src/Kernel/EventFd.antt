-- ===== src/Kernel/EventFd.antt =====
-- tee/kernel/src/fs/fd/eventfd.rs: the counter of an event descriptor. Each operation runs alone, so that
-- the first round of `write`'s compare-and-exchange loop is its last.
pub mod Counter
mod Tests
use mushroom.Prelude.{
  ℕ, zero, suc, ◌+◌, ◌*◌, ◌/◌, ◌%◌, ◌-◌, ◌^◌, Bool, false, not, List, [], ◌∷◌, length, ltb, ◌==◌,
  if◌then◌else◌,
}
use mushroom.Prelude.ErrorKind.{Result, ok, err, inval, again}
use mushroom.Kernel.StreamBuffer.{Events, intersect}

-- The counter, and the number of notifications sent so far.
pub record EventFd : Type 0 where
  pub counter : ℕ
  pub notifications : ℕ

-- `EventFd::new`, for an initial value of 32 bits
pub new : ℕ → EventFd
new initval = record { counter = initval; notifications = 0 }

-- The bytes of a word in memory, on x86-64: `to_ne_bytes` and `pod_read_unaligned`.
pub bytes_of : ℕ → ℕ → List ℕ
bytes_of zero v = []
bytes_of (suc n) v = v % 256 ∷ bytes_of n (v / 256)

pub word_of : List ℕ → ℕ
word_of [] = 0
word_of (b ∷ bs) = b + 256 * word_of bs

-- `read`: the count and what the caller's slice holds then.
pub read : EventFd → List ℕ → Result (ℕ × List ℕ) × EventFd
read s buf =
    if length buf == 8
    then (if s.counter == 0
        then (err again, record s { counter = 0 })
        else (ok (8, bytes_of 8 s.counter), record s { counter = 0 }))
    else (err inval, s)

-- The addition of `write`, and its notification where the counter was zero.
pub add : EventFd → ℕ → Result ℕ × EventFd
add s n =
    if n == 0
    then (ok 8, s)
    else if ltb (s.counter + n) (2 ^ 64)
    then (
      ok 8,
      record {
        counter = s.counter + n;
        notifications = if s.counter == 0 then s.notifications + 1 else s.notifications;
      },
    )
    else (err again, s)

-- `write`
pub write : EventFd → List ℕ → Result ℕ × EventFd
write s buf = if length buf == 8 then add s (word_of buf) else (err inval, s)

-- `poll_ready`
pub poll_ready : EventFd → Events → Events
poll_ready s events =
    intersect
      (record {
        read = not (s.counter == 0);
        write = not (s.counter == 2 ^ 64 - 1);
        error = false;
        hang_up = false;
      })
      events

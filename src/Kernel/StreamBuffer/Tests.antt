-- ===== src/Kernel/StreamBuffer/Tests.antt =====
-- Runs of the byte stream at concrete inputs.
use mushroom.Prelude.{ℕ, ◌≡◌, refl, false, [], ◌∷◌, ◌++◌, arith}
use mushroom.Prelude.ErrorKind.{ok, err, fault}
use mushroom.Kernel.StreamBuffer.{
  StreamBuffer, UserMemory, read, write, write_from_user, can_write, extend, ensure_space, was_full,
  notify, fill,
}
use mushroom.Kernel.StreamBuffer.Stream.{Runs, done, then_step, reads, writes, Runs-stream}
use mushroom.Kernel.StreamBuffer.Wake.{Wakes, read-Wakes, Keeps, write_from_user-Keeps}

-- A full buffer of three bytes.
abbrev full : StreamBuffer
full = record { buffer = 5 ∷ 6 ∷ 7 ∷ []; strong_count = 2; notifications = 4 }

blocked : can_write 3 2 full 1 ≡ false
unfolding can_write
blocked = refl

read-Wakes_example : Wakes 3 2 1 full (read 3 2 full (0 ∷ 0 ∷ []))
read-Wakes_example = read-Wakes 3 2 1 full (0 ∷ 0 ∷ []) (omega arith) blocked

-- A write of three bytes and a read of two.
abbrev two_left : StreamBuffer
two_left = record { buffer = 7 ∷ 1 ∷ 2 ∷ []; strong_count = 2; notifications = 6 }

short_run : Runs 5 2 full (1 ∷ 2 ∷ []) (5 ∷ 6 ∷ []) two_left
unfolding read write extend ensure_space was_full notify fill
short_run = then_step (then_step done (writes (1 ∷ 2 ∷ 3 ∷ []) refl)) (reads (0 ∷ 0 ∷ []) refl)

Runs-stream_example : full.buffer ++ 1 ∷ 2 ∷ [] ≡ (5 ∷ 6 ∷ []) ++ two_left.buffer
Runs-stream_example = Runs-stream short_run

-- A memory in which every read past an address fails.
abbrev memory : UserMemory ℕ
memory = record {
  write_bytes = λ m pointer xs. (m, ok tt);
  read_bytes = λ m pointer len. err fault;
}

write_from_user-Keeps_example : Keeps full (write_from_user 5 2 memory (λ xs. 1) 0 full 0x1000 2)
write_from_user-Keeps_example = write_from_user-Keeps 5 2 memory (λ xs. 1) full 0 0x1000 2

-- ===== src/Services/CommandBuffer/Refine.antt =====
-- The command buffer of command_buffer.rs as a queue of commands: each side of the ring against
-- what a client of the queue sees.
use mathlib.Core.List.{append_assoc, append-nil}
use mathlib.Core.Option
use mushroom.Prelude.{
  ℕ, ◌+◌, ◌-◌, ◌%◌, ◌^◌, ◌<◌, ◌≤◌, ◌≡◌, refl, ap, List, [], ◌∷◌, ◌++◌, arith, length, Option, none,
  some, true, false, ltb, if◌then◌else◌, length-append,
}
use mushroom.Services.CommandBuffer.{
  CommandBuffer, Command, start_next_ap, allocate_memory, deallocate_memory, update_output,
  finish_output, fail_output, CommandHandler, size, next_index, u16_bytes, encode, read_command,
  push, dispatch, execute, handle,
}
use mushroom.Services.CommandBuffer.Ring.{
  window, length-window, used, available_lem, window-write_bytes, window_split, window_head,
}

-- What the Rust types say of a command: `u16` fields, and a buffer of 0x1000 bytes.
abbrev pub IsCommand : Command → Type 0
IsCommand (deallocate_memory slot_idx) = slot_idx < 2 ^ 16
IsCommand (update_output n bytes) = (n < 2 ^ 16) × (length bytes ≡ 0x1000)
IsCommand _ = Unit

-- The bytes of a queue of commands.
abbrev pub flat : List Command → List ℕ
flat [] = []
flat (c ∷ q) = encode c ++ flat q

-- The buffer holds exactly the commands of `q`, oldest first, with both indices in range.
pub record Holds (cb : CommandBuffer) (q : List Command) : Type 0 where
  pub completed_in : cb.completed_index < size
  pub pending_in : cb.pending_index < size
  pub bytes :
      window cb.buffer cb.completed_index (used cb.completed_index cb.pending_index) ≡ flat q

pub flat-append : (q r : List Command) → flat (q ++ r) ≡ flat q ++ flat r
flat-append [] r = refl
flat-append (c ∷ q) r = ground (arith, flat-append q r, append_assoc (encode c) (flat q) (flat r))

-- What the writer promises: a command is queued behind the others if its bytes fit, and refused
-- otherwise.
abbrev pub queue_push : List Command → Command → Option (List Command)
queue_push q c = if ltb (length (flat q) + length (encode c)) size then some (q ++ c ∷ []) else none

abbrev pub Refines : Option CommandBuffer → Option (List Command) → Type 0
Refines none none = Unit
Refines (some cb) (some q) = Holds cb q
Refines _ _ = ⊥

-- A push on a buffer that holds the commands of a queue refuses exactly when the queue refuses,
-- and otherwise leaves a buffer that holds the queue with the command at its end.
pub push-Refines :
    (cb : CommandBuffer) (q : List Command) (c : Command)
    → Holds cb q
    → Refines (push cb c) (queue_push q c)
unfolding push
push-Refines cb q c h =
    let bytes = encode c in
    let i = cb.completed_index in
    let n = used i cb.pending_index in
    ground (
      arith,
      available_lem i cb.pending_index h.completed_in h.pending_in,
      ap length h.bytes,
      length-window cb.buffer i n,
      window-write_bytes cb.buffer bytes i n cb.pending_index,
      flat-append q (c ∷ []),
      append-nil bytes,
    )

-- A command of the queue's head is read back from its bytes, with the index past it.
read_command_lem :
    (buf : ℕ → ℕ) (c : Command) (i : ℕ)
    → i < size
    → IsCommand c
    → window buf i (length (encode c)) ≡ encode c
    → read_command buf (buf i) (next_index i) ≡ some (c, (i + length (encode c)) % size)
unfolding read_command encode
read_command_lem buf start_next_ap i h v e = ground (arith, window_head buf 0 [] i 0)
read_command_lem buf allocate_memory i h v e = ground (arith, window_head buf 1 [] i 0)
read_command_lem buf (deallocate_memory slot_idx) i h v e =
    ground (arith, window_head buf 2 (u16_bytes slot_idx) i 2)
read_command_lem buf (update_output n bytes) i h v e =
    ground (arith, window_head buf 3 (u16_bytes n ++ bytes) i 0x1002)
read_command_lem buf finish_output i h v e = ground (arith, window_head buf 4 [] i 0)
read_command_lem buf fail_output i h v e = ground (arith, window_head buf 5 [] i 0)

encode-ne-nil : (c : Command) → 0 < length (encode c)
unfolding encode
encode-ne-nil start_next_ap = omega arith
encode-ne-nil _ = omega arith

-- The oldest command lies within the used part.
fits :
    (cb : CommandBuffer) (c : Command) (q : List Command)
    → Holds cb (c ∷ q)
    → length (encode c) ≤ used cb.completed_index cb.pending_index
fits cb c q v = omega (
  arith,
  ap length v.bytes,
  length-window cb.buffer cb.completed_index (used cb.completed_index cb.pending_index),
  length-append (encode c) (flat q),
)

read_head :
    (cb : CommandBuffer) (c : Command) (q : List Command)
    → IsCommand c
    → Holds cb (c ∷ q)
    → read_command cb.buffer (cb.buffer cb.completed_index) (next_index cb.completed_index)
      ≡ some (c, (cb.completed_index + length (encode c)) % size)
read_head cb c q w v =
    read_command_lem cb.buffer c cb.completed_index v.completed_in w
      (window_split cb.buffer (encode c) (flat q) cb.completed_index _ v.completed_in v.bytes).0

module _ {S : Type 0} (h : CommandHandler S) where
  -- On a buffer that holds no command the reader changes neither the buffer nor the handler's state,
  -- and reports that it executed nothing.
  pub handle-nil : (cb : CommandBuffer) (s : S) → Holds cb [] → handle h cb s ≡ some (false, cb, s)
  unfolding handle
  handle-nil cb s v = ground (
    arith,
    ap length v.bytes,
    length-window cb.buffer cb.completed_index (used cb.completed_index cb.pending_index),
  )

  -- The buffer once its oldest command is consumed.
  abbrev pub consumed : CommandBuffer → Command → CommandBuffer
  consumed cb c = record cb { completed_index = (cb.completed_index + length (encode c)) % size }

  -- A buffer that holds a command and then a queue, with the bytes of that command consumed, holds the
  -- queue.
  pub consumed-Holds :
      (cb : CommandBuffer) (c : Command) (q : List Command)
      → Holds cb (c ∷ q)
      → Holds (consumed cb c) q
  consumed-Holds cb c q v = record {
    completed_in = omega arith;
    pending_in = v.pending_in;
    bytes =
        rw left
          (window_split cb.buffer (encode c) (flat q) cb.completed_index _ v.completed_in
            v.bytes).1;
  }
    where
      left :
          used ((cb.completed_index + length (encode c)) % size) cb.pending_index
          ≡ used cb.completed_index cb.pending_index - length (encode c)
      left = omega (arith, fits cb c q v, v.completed_in, v.pending_in)

  -- On a buffer that holds a queue whose oldest command has the fields that its type allows, the reader
  -- dispatches exactly that command and consumes its bytes; where the dispatch panics, so does it.
  pub handle-cons :
      (cb : CommandBuffer) (s : S) (c : Command) (q : List Command)
      → IsCommand c
      → Holds cb (c ∷ q)
      → handle h cb s ≡ Option.map (λ t. (true, consumed cb c, t)) (dispatch h c s)
  unfolding handle execute
  handle-cons cb s c q w v = ground (arith, read_head cb c q w v, fits cb c q v, encode-ne-nil c)

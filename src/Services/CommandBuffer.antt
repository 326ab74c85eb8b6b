-- ===== src/Services/CommandBuffer.antt =====
-- common/supervisor-services/src/command_buffer.rs: a ring of bytes with one writer (the workload
-- kernel) and one reader (the supervisor).
pub mod Ring
pub mod Refine
use mushroom.Prelude.{
  ℕ, ◌+◌, ◌-◌, ◌*◌, ◌/◌, ◌%◌, Bool, true, false, List, [], ◌∷◌, ◌++◌, ltb, leb, ◌==◌, if◌then◌else◌,
  length, take, Option, none, some, zero, suc,
}

-- `COMMAND_BUFFER_SIZE`
abbrev pub size : ℕ
size = 0x3ffc

-- An array is the function from its indices, which `Refine` proves to stay below `size`.
pub record CommandBuffer : Type 0 where
  pub completed_index : ℕ
  pub pending_index : ℕ
  pub buffer : ℕ → ℕ

pub new : CommandBuffer
new = record { completed_index = 0; pending_index = 0; buffer = λ _. 0 }

-- The payload of a command is the contents of its `#[repr(C)]` struct. A `SlotIndex` is a `u16`.
pub data Command : Type 0 where
  start_next_ap : Command
  allocate_memory : Command
  deallocate_memory : ℕ → Command
  update_output : ℕ → List ℕ → Command
  finish_output : Command
  fail_output : Command

-- `UpdateOutput::new`: the chunk, padded with zeros to 0x1000 bytes. A longer chunk panics.
abbrev pub pad : ℕ → List ℕ → List ℕ
pad zero chunk = []
pad (suc n) [] = 0 ∷ pad n []
pad (suc n) (x ∷ chunk) = x ∷ pad n chunk

pub update_output_new : List ℕ → Option Command
update_output_new chunk =
    if leb (length chunk) 0x1000
    then some (update_output (length chunk % 0x10000) (pad 0x1000 chunk))
    else none

-- The bytes of a `u16` in memory, on x86-64.
abbrev pub u16_bytes : ℕ → List ℕ
u16_bytes v = v % 256 ∷ v / 256 ∷ []

-- `C::ID` and then `bytes_of(command)`
unfoldable pub encode : Command → List ℕ
encode start_next_ap = 0 ∷ []
encode allocate_memory = 1 ∷ []
encode (deallocate_memory slot_idx) = 2 ∷ u16_bytes slot_idx
encode (update_output n bytes) = 3 ∷ u16_bytes n ++ bytes
encode finish_output = 4 ∷ []
encode fail_output = 5 ∷ []

-- An index stepped once, as both sides do after each byte.
abbrev pub next_index : ℕ → ℕ
next_index i = if i + 1 == size then 0 else i + 1

abbrev pub update : (ℕ → ℕ) → ℕ → ℕ → ℕ → ℕ
update buf i x j = if i == j then x else buf j

pub write_bytes : (ℕ → ℕ) → ℕ → List ℕ → (ℕ → ℕ) × ℕ
write_bytes buf i [] = (buf, i)
write_bytes buf i (x ∷ xs) = write_bytes (update buf i x) (next_index i) xs

-- `available_capacity`
pub available : ℕ → ℕ → ℕ
available completed pending =
    if leb completed pending then completed + (size - 1 - pending) else completed - pending - 1

-- `CommandBufferWriter::push`; `none` is `CapacityError`.
pub push : CommandBuffer → Command → Option CommandBuffer
push cb command =
    let bytes = encode command in
    let (buf, pending) = write_bytes cb.buffer cb.pending_index bytes in
    if ltb (available cb.completed_index cb.pending_index) (length bytes)
    then none
    else some (record cb { buffer = buf; pending_index = pending })

-- `n` calls of `read_byte`, and the index after them.
pub read_bytes : (ℕ → ℕ) → ℕ → ℕ → List ℕ × ℕ
read_bytes buf i zero = ([], i)
read_bytes buf i (suc n) = let (xs, j) = read_bytes buf (next_index i) n in (buf i ∷ xs, j)

abbrev pub u16_of : List ℕ → ℕ
u16_of [] = 0
u16_of (a ∷ []) = a
u16_of (a ∷ b ∷ _) = a + b * 256

abbrev pub payload_of : List ℕ → List ℕ
payload_of [] = []
payload_of (_ ∷ []) = []
payload_of (_ ∷ _ ∷ xs) = xs

-- The command with the given id whose bytes follow, and the index past it; `none` for an unknown
-- id (`unreachable!`).
pub read_command : (ℕ → ℕ) → ℕ → ℕ → Option (Command × ℕ)
read_command buf id i =
    let (slot, after_slot) = read_bytes buf i 2 in
    let (output, after_output) = read_bytes buf i 0x1002 in
    if id == 0
    then some (start_next_ap, i)
    else if id == 1
    then some (allocate_memory, i)
    else if id == 2
    then some (deallocate_memory (u16_of slot), after_slot)
    else if id == 3
    then some (update_output (u16_of output) (payload_of output), after_output)
    else if id == 4
    then some (finish_output, i)
    else if id == 5
    then some (fail_output, i)
    else none

-- The trait `CommandHandler`, over the handler's state. `none` is a panic.
pub record CommandHandler (S : Type 0) : Type 0 where
  pub on_start_next_ap : S → Option S
  pub on_allocate_memory : S → Option S
  pub on_deallocate_memory : ℕ → S → Option S
  pub on_update_output : List ℕ → S → Option S
  pub on_finish_output : S → Option S
  pub on_fail_output : S → Option S

module _ {S : Type 0} (h : CommandHandler S) where
  open h use {
    on_start_next_ap, on_allocate_memory, on_deallocate_memory, on_update_output, on_finish_output,
    on_fail_output,
  }

  -- `Command::dispatch`. The slice `self.buffer[..size]` panics past the end.
  pub dispatch : Command → S → Option S
  dispatch start_next_ap s = on_start_next_ap s
  dispatch allocate_memory s = on_allocate_memory s
  dispatch (deallocate_memory slot_idx) s = on_deallocate_memory slot_idx s
  dispatch (update_output n bytes) s =
      if leb n (length bytes) then on_update_output (take n bytes) s else none
  dispatch finish_output s = on_finish_output s
  dispatch fail_output s = on_fail_output s

  -- The rest of `handle`, once the command is read.
  pub execute : CommandBuffer → S → Option (Command × ℕ) → Option (Bool × CommandBuffer × S)
  execute cb s none = none
  execute cb s (some (command, i)) = elim (dispatch command s) [
    | none ↦ none
    | some s' ↦ some (true, record cb { completed_index = i }, s')
  ]

  -- `CommandBufferReader::handle`: whether a command was executed, and the new states.
  pub handle : CommandBuffer → S → Option (Bool × CommandBuffer × S)
  handle cb s =
      if cb.pending_index == cb.completed_index
      then some (false, cb, s)
      else execute cb s
          (read_command cb.buffer (cb.buffer cb.completed_index) (next_index cb.completed_index))

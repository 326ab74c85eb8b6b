-- ===== src/Services/Tests.antt =====
-- Runs of the services' code at concrete inputs.
use mushroom.Prelude.{
  ℕ, zero, suc, ◌+◌, ◌/◌, ◌%◌, ◌<◌, ◌≡◌, refl, true, false, List, [], ◌∷◌, ◌++◌, none, some, arith,
  length, replicate, get_or, length-replicate, length-append,
}
use mathlib.Core.Option
use native.Mathlib.Decide.{dec_lt}
use mushroom.Prelude.BitField.{bits, get_bit_value}
use mushroom.Services.CommandBuffer.{
  CommandBuffer, Command, start_next_ap, allocate_memory, deallocate_memory, push, CommandHandler,
  dispatch, handle, encode, update,
}
use mushroom.Services.CommandBuffer.Ring.{window}
use mushroom.Services.CommandBuffer.Refine.{
  Holds, Refines, queue_push, push-Refines, consumed, handle-cons,
}
use mushroom.Services.AllocationBuffer.{AllocationBuffer, empty_slot, slot_limit, find_free_entry}
use mushroom.Services.AllocationBuffer.Contents.{contents, find_free_entry-none}
use mushroom.Services.HostAllocator.{
  HostAllocator, bitmap_size, allocate_slot_idx, deallocate_slot_id,
}
use mushroom.Services.HostAllocator.Slots.{
  is_used, IsValid, Allocates, allocate_slot_idx-Allocates, Deallocates,
  deallocate_slot_id-Deallocates,
}
use mushroom.Services.Handler.{Handler}
use mushroom.Services.Handler as Requests
use mushroom.Services.Handler.Refill.{IsOwned, Refills, allocate_memory-Refills}

-- Two commands around the end of the ring.
abbrev wrapped : CommandBuffer
wrapped = record {
  completed_index = 0x3ffb;
  pending_index = 3;
  buffer = update (update (update (λ _. 0) 0x3ffb 1) 0 2) 1 7;
}

abbrev two_commands : List Command
two_commands = allocate_memory ∷ deallocate_memory 7 ∷ []

wrapped-Holds : Holds wrapped two_commands
unfolding window encode
wrapped-Holds = record { completed_in = omega arith; pending_in = omega arith; bytes = refl }

push-Refines_example : Refines (push wrapped start_next_ap) (queue_push two_commands start_next_ap)
push-Refines_example = push-Refines wrapped two_commands start_next_ap wrapped-Holds

-- Counts the commands.
abbrev counter : CommandHandler ℕ
counter = record {
  on_start_next_ap = λ s. some (s + 1);
  on_allocate_memory = λ s. some (s + 1);
  on_deallocate_memory = λ slot s. some (s + slot);
  on_update_output = λ xs s. some (s + 1);
  on_finish_output = λ s. none;
  on_fail_output = λ s. none;
}

abbrev idle : CommandBuffer
idle = record { completed_index = 9; pending_index = 9; buffer = λ _. 3 }

idle-Holds : Holds idle []
unfolding window
idle-Holds = record { completed_in = omega arith; pending_in = omega arith; bytes = refl }

handle-cons_example :
    handle counter wrapped 5
    ≡ Option.map
        (λ t. (true, consumed counter wrapped allocate_memory, t))
        (dispatch counter allocate_memory 5)
handle-cons_example =
    handle-cons counter wrapped 5 allocate_memory (deallocate_memory 7 ∷ []) tt wrapped-Holds

abbrev some_slots : AllocationBuffer
some_slots = empty_slot ∷ 4 ∷ empty_slot ∷ 9 ∷ []

find_free_entry-none_example : length (contents (4 ∷ 9 ∷ [])) ≡ length {A = ℕ} (4 ∷ 9 ∷ [])
unfolding find_free_entry
find_free_entry-none_example = find_free_entry-none (4 ∷ 9 ∷ []) refl

abbrev fresh_allocator : HostAllocator
fresh_allocator = record { bitmap = replicate bitmap_size 0; start_offset = 17 }

fresh-IsValid : IsValid bits fresh_allocator
fresh-IsValid = record { whole = length-replicate {A = ℕ} bitmap_size 0; start_in = omega arith }

allocate_slot_idx-Allocates_example :
    Allocates bits fresh_allocator (allocate_slot_idx bits fresh_allocator)
allocate_slot_idx-Allocates_example = allocate_slot_idx-Allocates bits fresh_allocator fresh-IsValid

deallocate_slot_id-Deallocates_example :
    Deallocates bits fresh_allocator 12 (deallocate_slot_id bits fresh_allocator 12)
deallocate_slot_id-Deallocates_example =
    deallocate_slot_id-Deallocates bits fresh_allocator 12 fresh-IsValid

-- Every slot but the last is in use.
abbrev almost_full : HostAllocator
almost_full = record { bitmap = replicate 4095 255 ++ 127 ∷ []; start_offset = 4095 }

almost_full-IsValid : IsValid bits almost_full
almost_full-IsValid = record {
  whole = omega (
    arith,
    length-append {A = ℕ} (replicate 4095 255) (127 ∷ []),
    length-replicate {A = ℕ} 4095 255,
  );
  start_in = omega arith;
}

get_or-replicate : (n i : ℕ) (x y : ℕ) → i < n → get_or (replicate n x ++ y ∷ []) i 0 ≡ x
get_or-replicate zero i x y h = absurd (omega arith)
get_or-replicate (suc n) zero x y h = refl
get_or-replicate (suc n) (suc i) x y h = get_or-replicate n i x y (omega arith)

get_or-replicate_last : (n x y : ℕ) → get_or (replicate n x ++ y ∷ []) n 0 ≡ y
get_or-replicate_last zero x y = refl
get_or-replicate_last (suc n) x y = get_or-replicate_last n x y

ones_255 : (i : ℕ) → i < 8 → get_bit_value 255 i ≡ true
unfolding get_bit_value
ones_255 zero h = refl
ones_255 (suc zero) h = refl
ones_255 (suc (suc zero)) h = refl
ones_255 (suc (suc (suc zero))) h = refl
ones_255 (suc (suc (suc (suc zero)))) h = refl
ones_255 (suc (suc (suc (suc (suc zero))))) h = refl
ones_255 (suc (suc (suc (suc (suc (suc zero)))))) h = refl
ones_255 (suc (suc (suc (suc (suc (suc (suc zero))))))) h = refl
ones_255 (suc (suc (suc (suc (suc (suc (suc (suc i)))))))) h = absurd (omega arith)

ones_127 : (i : ℕ) → i < 7 → get_bit_value 127 i ≡ true
unfolding get_bit_value
ones_127 zero h = refl
ones_127 (suc zero) h = refl
ones_127 (suc (suc zero)) h = refl
ones_127 (suc (suc (suc zero))) h = refl
ones_127 (suc (suc (suc (suc zero)))) h = refl
ones_127 (suc (suc (suc (suc (suc zero))))) h = refl
ones_127 (suc (suc (suc (suc (suc (suc zero)))))) h = refl
ones_127 (suc (suc (suc (suc (suc (suc (suc i))))))) h = absurd (omega arith)

almost_full-used : (slot : ℕ) → slot < slot_limit → is_used bits almost_full slot ≡ true
unfolding bits
almost_full-used slot h = elim (dec_lt (slot / 8) 4095) [
  | yes l ↦ rw (get_or-replicate 4095 (slot / 8) 255 127 l) (ones_255 (slot % 8) (omega arith))
  | no l ↦
      let e : slot / 8 ≡ 4095 = omega arith in
      rw (e, get_or-replicate_last 4095 255 127) (ones_127 (slot % 8) (omega arith))
]

almost_full-last : is_used bits almost_full slot_limit ≡ false
unfolding bits get_bit_value
almost_full-last = refl

abbrev requests : Handler
requests = record {
  host_allocator = fresh_allocator;
  allocation_buffer = empty_slot ∷ empty_slot ∷ empty_slot ∷ [];
  events = [];
}

requests-IsOwned : IsOwned bits requests
requests-IsOwned = record { allocator = fresh-IsValid; slots = tt }

allocate_memory-Refills_example : Refills bits requests (Requests.allocate_memory bits 4 requests)
allocate_memory-Refills_example =
    allocate_memory-Refills bits 4 requests (omega arith) requests-IsOwned

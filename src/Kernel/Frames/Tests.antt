-- ===== src/Kernel/Frames/Tests.antt =====
-- Runs of the frame allocator at concrete inputs.
use mushroom.Prelude.{◌≡◌, refl, true, false, List, [], ◌∷◌, replicate, arith}
use mushroom.Kernel.Frames.{Word, Chunk, Group, allocate, deallocate_frame, claim_any}
use mushroom.Kernel.Frames.Bits.{write_bit}
use mushroom.Kernel.Frames.Counts.{IsValid}
use mushroom.Kernel.Frames.Release.{IsGroup}
use mushroom.Kernel.Frames.Allocate.{Allocates, allocate-Allocates}
use mushroom.Kernel.Frames.Deallocate.{Freed, deallocate_frame-Freed}
use mushroom.Kernel.Frames.Groups.{Chosen, claim_any-Chosen}

abbrev no_frames : List Word
no_frames = replicate 8 (replicate 64 false)

-- Frame 70 is in use, the others are free.
abbrev one_in_use : Chunk
one_in_use = record {
  words = write_bit no_frames 70 true;
  free = 0;
  own_free = 511;
  slot = 3;
  plugged = true;
}

abbrev no_memory : Chunk
no_memory = record { words = no_frames; free = 0; own_free = 0; slot = 0; plugged = false }

abbrev owned_group : Group
owned_group = record {
  chunks = no_memory ∷ one_in_use ∷ [];
  free = 0;
  own_free = 511;
  owned = true;
}

owned_group-IsValid : IsValid owned_group
owned_group-IsValid = omega arith

owned_group-IsGroup : IsGroup owned_group
owned_group-IsGroup = (owned_group-IsValid, λ e. cc)

allocate-Allocates_example : Allocates owned_group (9 ∷ []) (allocate 3 owned_group (9 ∷ []))
allocate-Allocates_example = allocate-Allocates 1 owned_group (9 ∷ []) owned_group-IsValid

deallocate_frame-Freed_example :
    IsGroup (deallocate_frame true 1 70 owned_group).0
    × Freed owned_group.chunks 1 70 (deallocate_frame true 1 70 owned_group).0.chunks
    × ((deallocate_frame true 1 70 owned_group).1 ≡ [])
deallocate_frame-Freed_example =
    deallocate_frame-Freed 1 70 owned_group one_in_use owned_group-IsGroup refl (omega arith) refl
      true (λ e. refl)

-- A group that nobody owns, with memory in one of its chunks.
abbrev shared_group : Group
shared_group = record {
  chunks = no_memory ∷ record one_in_use { free = 511; own_free = 0 } ∷ [];
  free = 511;
  own_free = 0;
  owned = false;
}

shared_group-IsGroup : IsGroup shared_group
shared_group-IsGroup = (omega arith, λ e. omega arith)

claim_any-Chosen_example :
    Chosen (owned_group ∷ shared_group ∷ []) (claim_any (owned_group ∷ shared_group ∷ []))
claim_any-Chosen_example =
    claim_any-Chosen (owned_group ∷ shared_group ∷ [])
      (owned_group-IsGroup, (shared_group-IsGroup, tt))

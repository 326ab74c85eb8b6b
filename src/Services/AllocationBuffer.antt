-- ===== src/Services/AllocationBuffer.antt =====
-- common/supervisor-services/src/allocation_buffer.rs: slots that the supervisor has prepared and
-- the kernel takes.
pub mod Contents
use mushroom.Prelude.{
  ℕ, zero, suc, ◌+◌, Bool, List, [], ◌∷◌, Option, none, some, ltb, ◌==◌, if◌then◌else◌, replicate,
  set,
}
use mushroom.Prelude.Outcome.{Outcome, returns, panics}
use mathlib.Core.Option

-- `SlotIndex::EMPTY`
abbrev pub empty_slot : ℕ
empty_slot = 0xffff

-- `u16::MAX / 2`
abbrev pub slot_limit : ℕ
slot_limit = 0x7fff

-- `SlotIndex::new`
abbrev pub slot_new : ℕ → Outcome ℕ
slot_new v = if ltb v slot_limit then returns v else panics

-- `SlotIndex::get`
abbrev pub slot_get : ℕ → Outcome ℕ
slot_get v = if ltb v slot_limit then returns v else panics

-- `AllocationBuffer`: the array of 32 raw slot indices.
abbrev pub AllocationBuffer : Type 0
AllocationBuffer = List ℕ

abbrev pub new : AllocationBuffer
new = replicate 32 empty_slot

-- The iterator swaps entries with EMPTY up to the first that was in use.
pub pop_allocation : AllocationBuffer → Option ℕ × AllocationBuffer
pop_allocation [] = (none, [])
pop_allocation (x ∷ xs) =
    let (r, ys) = pop_allocation xs in
    if x == empty_slot then (r, empty_slot ∷ ys) else (some x, empty_slot ∷ xs)

-- The entry is its index in the array.
unfoldable pub find_free_entry : AllocationBuffer → Option ℕ
find_free_entry [] = none
find_free_entry (x ∷ xs) =
    let rest = find_free_entry xs in if x == empty_slot then some 0 else Option.map suc rest

-- `AllocationBufferEntry::set`
abbrev pub set_entry : AllocationBuffer → ℕ → ℕ → AllocationBuffer
set_entry xs entry slot_idx = set xs entry slot_idx

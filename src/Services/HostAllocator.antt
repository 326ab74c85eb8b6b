-- ===== src/Services/HostAllocator.antt =====
-- tee/supervisor-snp/src/dynamic.rs: the supervisor's allocator of 2 MiB slots of host memory.
-- (tee/supervisor-tdx/src/dynamic.rs keeps the same bitmap.)
pub mod Scan
pub mod Slots
use mathlib.Core.Option
use mushroom.Prelude.{
  ℕ, zero, suc, ◌+◌, ◌*◌, ◌/◌, ◌%◌, Bool, true, false, List, [], ◌∷◌, ◌++◌, Option, none, some,
  if◌then◌else◌, take, drop, replicate, get_or, set,
}
use mushroom.Prelude.BitField.{BitField}
use mushroom.Prelude.Outcome.{Outcome, returns, panics, ◌>>=◌, ◌>>◌}
use mushroom.Services.AllocationBuffer.{slot_new, slot_get}

-- `BITMAP_SIZE`
abbrev pub bitmap_size : ℕ
bitmap_size = 4096

pub record HostAllocator : Type 0 where
  pub bitmap : List ℕ
  pub start_offset : ℕ

pub new : HostAllocator
new = record { bitmap = replicate bitmap_size 0; start_offset = 0 }

-- What the allocator asks of the processor and the host, in order.
pub data HostEvent : Type 0 where
  update_slot_status : ℕ → Bool → HostEvent
  pvalidate : ℕ → Bool → HostEvent
  write_zeros : ℕ → HostEvent
  rmpadjust : ℕ → HostEvent

-- The events of a frame that is handed out.
abbrev pub granted : ℕ → List HostEvent
granted slot =
    update_slot_status slot true ∷ pvalidate slot true ∷ write_zeros slot ∷ rmpadjust slot ∷ []

abbrev pub granted_of : Option ℕ → List HostEvent
granted_of none = []
granted_of (some slot) = granted slot

module _ (f : BitField) where
  open f use {get_bit, set_bit}

  -- `(0..8).find(|&i| !bitmap.get_bit(i))`, with the indices left to try and the next of them
  pub find_unset : ℕ → ℕ → ℕ → Option ℕ
  find_unset v zero i = none
  find_unset v (suc n) i = let rest = find_unset v n (i + 1) in if get_bit v i then rest else some i

  abbrev pub keep : ℕ → List ℕ × ℕ × ℕ → List ℕ × ℕ × ℕ
  keep v (ws, j, b) = (v ∷ ws, j, b)

  -- `find_map` over bytes numbered from `i`: the bytes with a bit set, its byte and the bit.
  pub scan : List ℕ → ℕ → Option (List ℕ × ℕ × ℕ)
  scan [] i = none
  scan (v ∷ vs) i =
      let rest = scan vs (i + 1) in
      elim (find_unset v 8 0) [
        | some b ↦ some (set_bit v b true ∷ vs, i, b)
        | none ↦ Option.map (keep v) rest
      ]

  -- The closure's result, for a bitmap put together again.
  abbrev pub found : List ℕ → ℕ → ℕ → Outcome (Option ℕ × HostAllocator)
  found bitmap i bit = do
    slot ← slot_new (i * 8 + bit)
    returns (some slot, record { bitmap = bitmap; start_offset = i })

  pub allocate_slot_idx : HostAllocator → Outcome (Option ℕ × HostAllocator)
  allocate_slot_idx a =
      let first = take a.start_offset a.bitmap in
      let second = drop a.start_offset a.bitmap in
      elim (scan second a.start_offset) [
        | some (ws, i, bit) ↦ found (first ++ ws) i bit
        | none ↦ elim (scan first 0) [
          | some (ws, i, bit) ↦ found (ws ++ second) i bit
          | none ↦ returns (none, a)
        ]
      ]

  pub deallocate_slot_id : HostAllocator → ℕ → Outcome HostAllocator
  deallocate_slot_id a slot_idx = do
    slot ← slot_get slot_idx
    let byte = get_or a.bitmap (slot / 8) 0
    if get_bit byte (slot % 8)
        then returns (record a { bitmap = set a.bitmap (slot / 8) (set_bit byte (slot % 8) false) })
        else panics

  unfoldable pub allocate_frame :
      HostAllocator → Outcome (Option ℕ × HostAllocator × List HostEvent)
  allocate_frame a = do r ← allocate_slot_idx a; returns (r.0, r.1, granted_of r.0)

  unfoldable pub deallocate_frame : HostAllocator → ℕ → Outcome (HostAllocator × List HostEvent)
  deallocate_frame a slot_idx = do
    slot ← slot_get slot_idx
    a' ← deallocate_slot_id a slot
    returns (a', pvalidate slot false ∷ update_slot_status slot false ∷ [])

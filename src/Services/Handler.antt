-- ===== src/Services/Handler.antt =====
-- tee/supervisor-snp/src/services.rs: the supervisor's handler of commands that touch the
-- allocation buffer and the host's memory.
pub mod Refill
use mushroom.Prelude.{ℕ, zero, suc, List, [], ◌++◌, Option, none, some}
use mushroom.Prelude.BitField.{BitField}
use mushroom.Prelude.Outcome.{Outcome, returns, panics, ◌>>=◌, ◌>>◌}
use mushroom.Services.AllocationBuffer.{AllocationBuffer, find_free_entry, set_entry}
use mushroom.Services.HostAllocator.{HostAllocator, HostEvent, allocate_frame, deallocate_frame}

-- `Handler` with the shared buffer, and what it has asked of the processor and the host.
pub record Handler : Type 0 where
  pub host_allocator : HostAllocator
  pub allocation_buffer : AllocationBuffer
  pub events : List HostEvent

module _ (f : BitField) where
  -- `Handler::allocate_memory`, a `while let` loop, on fuel; `none` if the fuel runs out.
  pub allocate_memory : ℕ → Handler → Outcome (Option Handler)
  allocate_memory zero h = returns none
  allocate_memory (suc fuel) h = elim (find_free_entry h.allocation_buffer) [
    | none ↦ returns (some h)
    | some entry ↦ elim (allocate_frame f h.host_allocator) [
      | panics ↦ panics
      | returns (none, a, events) ↦
          returns (some (record h { host_allocator = a; events = h.events ++ events }))
      | returns (some slot, a, events) ↦ allocate_memory fuel (record {
        host_allocator = a;
        allocation_buffer = set_entry h.allocation_buffer entry slot;
        events = h.events ++ events;
      })
    ]
  ]

  -- `Handler::deallocate_memory`
  pub deallocate_memory : ℕ → Handler → Outcome Handler
  deallocate_memory slot_idx h = do
    r ← deallocate_frame f h.host_allocator slot_idx
    returns (record h { host_allocator = r.0; events = h.events ++ r.1 })

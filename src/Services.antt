-- ===== src/Services.antt =====
-- common/supervisor-services: the shared memory through which kernel and supervisor talk.
pub mod CommandBuffer
pub mod AllocationBuffer
pub mod HostAllocator
pub mod Handler
mod Tests

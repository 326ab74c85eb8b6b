-- ===== src/Kernel.antt =====
-- tee/kernel: the workload kernel.
pub mod Memory
pub mod FdTable
pub mod StreamBuffer
pub mod FileLock
pub mod Ownership
pub mod EventFd
pub mod Path
pub mod Frames
pub mod RwLock
pub mod PageBuffer
pub mod KernelPage
pub mod Lookup
pub mod TmpFs
mod Tests

-- ===== src/Lib.antt =====
-- Mushroom runs a workload in a confidential virtual machine. On the host a virtual machine monitor
-- starts it. Inside, a supervisor (tee/supervisor-snp, tee/supervisor-tdx) talks to the host and a
-- kernel (tee/kernel) runs the workload's Linux processes. Kernel and supervisor share two structures in
-- memory (common/supervisor-services): the kernel pushes commands into a ring of bytes and takes
-- slots of memory from a buffer, and the supervisor handles the commands and refills the buffer from
-- its allocator of host memory. Guest and hypervisor talk through one register, by the MSR protocol
-- of common/snp-types.
--
-- Parts and files:
-- - Prelude: shared names, lists, Boolean tests, integers. Prelude/ErrorKind is the enum and
--   `ensure!` of tee/kernel/src/error.rs. Prelude/Outcome tells a panic from a return. Prelude/BitField
--   is the crate `bit_field`: its operations are parameters, with their documented values as laws, and
--   `bits` is one instance.
-- - Services/CommandBuffer: common/supervisor-services/src/command_buffer.rs. `push` is
--   `CommandBufferWriter::push`, `handle` is `CommandBufferReader::handle`, the record
--   `CommandHandler` is the trait. Ring has the window of bytes between the indices, Refine the queue.
-- - Services/AllocationBuffer: common/supervisor-services/src/allocation_buffer.rs; Contents reads it
--   as the list of its slots in use.
-- - Services/HostAllocator: tee/supervisor-snp/src/dynamic.rs; Scan is the search of the bitmap, Slots
--   the set of slots. The requests to processor and host are a list of events.
-- - Services/Handler: tee/supervisor-snp/src/services.rs, the two commands on memory.
-- - Kernel/Memory: tee/kernel/src/user/process/memory.rs. `unmap`, `mmap`, `is_free` and `set_brk_end`
--   are the methods of `VirtualMemoryWriteGuard`, `find_page` is the lookup of `map_page`. View reads
--   the mappings as a map from pages; Unmap, Mmap and Brk are about these operations.
-- - Kernel/FdTable: `FileDescriptorTable` of tee/kernel/src/fs/fd.rs; Lookup reads it as a map, Free is
--   about the lowest free number, Standard about the tables that a process starts with.
-- - Kernel/FileLock: `FileLockRecord` and `FileLock` of tee/kernel/src/fs/fd.rs; Exclusion has the
--   meaning of the counter.
-- - Kernel/StreamBuffer: tee/kernel/src/fs/fd/stream_buffer.rs; Stream is about the bytes, Wake about
--   notifications and failed copies.
-- - Kernel/Ownership: tee/kernel/src/fs/ownership.rs and the checks of tee/kernel/src/fs/node.rs.
-- - Kernel/Path: tee/kernel/src/fs/path.rs; Print has the text of a list of segments.
-- - Kernel/EventFd: tee/kernel/src/fs/fd/eventfd.rs; Counter is about its words.
-- - Kernel/Frames: tee/kernel/src/memory/frame.rs. Bits is about the words of a chunk, Counts about the
--   counts of a chunk and a group, Take, Plug and Allocate about the owner's allocations, Release and
--   Deallocate about frames and chunks that are given back, Groups about the choice of a group.
-- - Kernel/RwLock: tee/kernel/src/spin/rwlock.rs. A step is one access of one process; Counts has the
--   readers and writers, Exclusion the runs.
-- - Kernel/PageBuffer: tee/kernel/src/memory/page/buffer.rs; Bytes reads a buffer as one sequence,
--   Reserve, Read, Write and Page are about its methods.
-- - Kernel/KernelPage: tee/kernel/src/memory/page/kernel.rs, with the counters of the allocations in
--   the state; Counts and Valid tie them to the pages, Copy and Alone are about the methods.
-- - Kernel/Lookup: finding nodes by their paths, in tee/kernel/src/fs/node.rs. INode has the record of the
--   methods of `INode` that a lookup calls, Ends the end of every lookup; Parents has `find_parent`, the
--   record of the methods that change directories and the calls that take paths to them, and
--   Parents/Directory and Parents/Permitted what those ask of the directories; Create has
--   `create_file`, Create/Opens what it gives, Makes the other calls that make nodes.
-- - Kernel/TmpFs: the directories of tee/kernel/src/fs/node/tmpfs.rs and their locations, of
--   tee/kernel/src/fs/node/directory.rs; Names has the file names. Moves has the calls that delete,
--   rename, exchange and link. In Moves, Trees, Moved and Roots are about the tree of directories and the
--   ways to its root, Rename and Exchange about these two calls, Keep, Create, Calls and Steps about the tree
--   under all others.
-- - Ghcb/MsrProtocol: common/snp-types/src/ghcb/msr_protocol.rs; Fields and Layout are about the bits
--   of a value, RoundTrip about writing and reading it.
-- The modules named Tests run the code at concrete inputs.
--
-- Conventions: addresses, pages, identities and machine words are natural numbers, with the bounds
-- that the code relies on as hypotheses; a `BTreeMap` is the list of its entries by ascending key; a
-- mutex or an atomic is its value, and each operation runs alone, except in Kernel/RwLock, where the
-- accesses of processes interleave. Five loops run on fuel:
-- `Services.Handler.allocate_memory`, where each round fills one free entry, so that more fuel than
-- free entries is enough; `Kernel.Path.collect`, where each step but the last takes a byte at least,
-- so that one step more than bytes is enough; `Kernel.Frames.allocate`, where two rounds are enough;
-- `Kernel.TmpFs.Moves.walk`, the loop up to the root, where more fuel than the height of the directory
-- is enough; and `Kernel.Lookup.lookup_node_with_parent` with `resolve_links`, where more fuel than the
-- limit of symlinks is enough, as for the rounds of `create_file` there. In Kernel/StreamBuffer the
-- capacity is at least the length of the buffer, as every write leaves it, where the code subtracts one from the other; the memory of a process and the
-- place where the ring's storage wraps are parameters. In Kernel/PageBuffer parameters say how much room
-- the heap has and which pages can be made writable. In Kernel/TmpFs a directory, a file or a node of
-- another file system is a number, parameters say which directories still have a reference and what
-- mounted nodes answer, and the root of the tmpfs is the root of the file tree. A call that takes a lock
-- that it holds already is a result of its own there. In Kernel/Lookup the nodes and the file system's
-- state are parameters, and a method of a node changes nothing unless it gives a state.
--
-- Not modelled: the host's monitor and its network clients, the TDX supervisor, page tables and the
-- flush of them, accounting of resident pages, `mprotect`, the choice of a free address for `mmap`,
-- the other file descriptors, procfs, mounts and hard links by path, times and listings of the tmpfs, system call
-- dispatch, signals, the heap allocator, the reverse map of the frame allocator, the spin mutex, and
-- the concurrency of kernel and supervisor within one operation.
pub mod Prelude
pub mod Services
pub mod Kernel
pub mod Ghcb

-- ===== src/Lib.antt =====
-- A model of the core of ChuckStation 5 and what is proved of it. Paths are from
-- source/chuckstation5/ of the repository.
--
-- The parts. The interpreter (src/Cpu/Cpu.cpp) executes guest code over the guest's memory; each of
-- its accesses first asks the memory manager (src/Memory/Memory.cpp), which tracks regions and
-- probes the system for what it does not track. Games record command lists with the builder of
-- src/CommandProcessor/CommandProcessor.cpp; its Process reads the bytes back and drives the state
-- of src/GPU/GPU.cpp. The kernel services give games shared memory and message queues.
--
-- The files.
-- - Base: Boolean tests on the native numbers, lists, association lists, bits.
-- - Cpu: the interpreter. State has CpuContext and CpuState; Word the 64-bit arithmetic with its
--   wrap-around; Flags UpdateFlagsLogic, UpdateFlagsArith and Parity; Mul Mul128U and Mul128S;
--   Guest GuestRead and GuestWrite; Fetch the code buffer and the prefix loop; Exec the cases of the
--   switch of ExecuteOne, one function for a case or for cases of one shape (Alu, Move, Control,
--   Group, TwoByte); Step ExecuteOne itself and Run; Breakpoints the lifecycle and the breakpoints;
--   Tables ImplementedOpcodes. Flags/Read, Guest/Laws, Compare, Stack, Bounds, Loop,
--   Mul/Portable, Exec/Group/Laws and Breakpoints/Laws hold proofs.
-- - Gpu: GPU.cpp; Gpu/Heap its allocator; Gpu/Fences holds proofs.
-- - CommandProcessor: Command has the builder, Process the reader; Meaning says what a call of the
--   builder stands for; RoundTrip and Total hold proofs.
-- - Memory: State has the regions, AddRegion and RemoveRegion; Virtual has Reserve, Commit, Map,
--   Protect and Unmap; Heap has Alloc and Free; Query the lookups and probes; Accounting, Committed
--   and Lookup hold proofs.
-- - KernelServices: src/KernelServices/KernelServices.cpp, whose shared memories are regions of the
--   memory manager. State has SvcState, Queue the work of SendMsg and RecvMsg on one queue,
--   Services the calls on handles; Order and Shared hold proofs.
-- - RuntimeEvents: src/RuntimeEvents/RuntimeEvents.cpp. State has the events, the subscriptions and
--   the queries, Publish the publications, Watchdog the watchdog; History and Unanswered hold proofs.
-- - KernelRuntime: src/KernelRuntime/KernelRuntime.cpp. Handles has the objects that handles share,
--   Objects the calls on threads, semaphores, events and timers, Ports the names, wait queues and
--   IPC ports; Sharing and Fifo hold proofs.
-- - ShaderCache: src/ShaderCache/ShaderCache.cpp, which publishes to RuntimeEvents. Cache has the
--   table, the queue of jobs and the worker's rounds, Capacity the sequences of calls and proofs.
-- - ModuleRegistry: src/ModuleRegistry/ModuleRegistry.cpp. Table has the registration, the release
--   and the symbols, Count holds proofs.
-- - Filesystem: src/Filesystem/Filesystem.cpp. Paths has the normalisation of guest paths, Mounts the
--   table and ResolveImpl, Files the calls on handles and paths; Normal, Table, Below and ReadOnly
--   hold proofs.
-- - SaveState: src/SaveState/SaveState.cpp, over the interpreter's context, the memory manager and
--   the GPU's counters. Checksum has Crc32, Blob and MemoryMap the serialisation, Slots Save and Load; Crc,
--   Bitwise, Header, Restore, Pages and Cycle hold proofs.
-- The files called Tests apply the theorems to concrete states.
--
-- How code becomes definitions. A function that changes a singleton's state takes the state and
-- returns it. Words are numbers below 2 ^ 64 with the wrap-around written out. The guest's memory is a
-- function from addresses to bytes. A case of the switch ends as an Outcome: `breaks` to the end of
-- the switch, `returns`, or `traps` where C++ has no defined behaviour. The interface between
-- the interpreter and the memory manager is the record Guest, which Memory/Query fills. What the
-- system answers (mmap, mprotect, munmap, posix_memalign, a pipe) is an argument; so is the
-- conversion of a float to a byte in a clear. Floats are their bit patterns.
--
-- A function whose signed counter can overflow, or whose memcpy can fault, gives an Option: `none` is
-- C++ without defined behaviour.
--
-- Fuel and bounds. The prefix loop has fuel for the 48 bytes of the code buffer, of which 32 are
-- fetched and the rest end the loop. Process has the length of its input; each round takes 4 bytes
-- or more. Run takes a schedule that says, for each round, whether another thread has called Stop;
-- it is as long as one likes, and ends in `still_running` where it is used up.
--
-- Not modelled: locks, logging and timing, the Windows build of the memory manager, Decode and
-- Disassemble, waiting for a message or a lock, the callbacks' bodies, the unused XMM registers,
-- Flip, the shader cache's file, relocations, and the other parts of the program (loader, linker, system calls, audio,
-- input, windows).
pub mod Base
pub mod CommandProcessor
pub mod Cpu
pub mod Filesystem
pub mod Gpu
pub mod KernelRuntime
pub mod KernelServices
pub mod Memory
pub mod ModuleRegistry
pub mod RuntimeEvents
pub mod SaveState
pub mod ShaderCache

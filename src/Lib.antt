-- ===== src/Lib.antt =====
-- Tuxlet OS, a small x86-64 operating system: the parts of it that are modelled here, and what is
-- proved of them.
--
-- The system is a kernel (src/kernel), modules that it loads (src/modules) and a package manager
-- that runs as a program (src/tuxpac). All of them get their memory from the page allocator. A
-- terminal window is a pseudo-terminal, a module of two ends: the window holds the master's, the
-- programs hold the slave's, and the line discipline stands between them. The package manager
-- unpacks archives: bytes come from a source, go through a decoder, and leave through a window that
-- remembers the latest of them.
--
-- Which file models what:
-- * Memory (src/kernel/mem.c): `Mem` is `runs` with `run_count` and the chain of loose pages with
--   `loose_count`; `run_add`, `run_remove` and `loosen` are the functions of that name, and a loop
--   of them is a function beside them. Memory/Insert, Memory/Add, Memory/Chain, Memory/Lists and
--   Memory/Spill have the proofs.
-- * Pages (src/kernel/mem.c): `take_pages` is `take`, `take_below`, `run_take`, `pages_free` and
--   `free_kib` the rest that takes pages or gives them back, once the memory is the kernel's own.
--   Proofs in Pages/Cut, Pages/Take and Pages/Free.
-- * Pty (src/modules/ipc/pty.c): `Pty` is `struct pty`, with the functions of the line discipline;
--   `input` is cut where its branches are. Proofs in Pty/Bounds, Pty/Editing and Pty/Cooked.
-- * Terminals (src/modules/ipc/pty.c): descriptors, waiting, reading, writing and the reference
--   counts. A wait is given the turns that others take meanwhile, as a list. Proofs in
--   Terminals/Reading, Terminals/Woken and Terminals/Counts.
-- * Opening and Ioctl (src/modules/ipc/pty.c): the names, the opening and the ioctls of terminals;
--   `number` is `number_of` there. What `process_ids` and `give_handle` return is an argument, as
--   is what the program's memory holds. Proofs in Opening/Names, Opening/Lifetime, Ioctl/Kept and
--   Ioctl/Raw.
-- * Inflate (src/tuxpac/unpack.c): `BitReader` is `bitbuf` and `bitcnt`, `Huff` is `struct huff`,
--   with `bits`, `decode` and `construct`. Proofs in Inflate/Bits, Inflate/Codes and
--   Inflate/Tables.
-- * Source, Window and Lzma (src/tuxpac/unpack.c): the byte sources, the window and the range
--   decoder. Proofs in the directories of the same names.
-- * Deflate, Dynamic and Gunzip (src/tuxpac/unpack.c): the blocks of deflate and `gunzip`, each a
--   function of that name; `Deflate.Inflate` is the bits with the two tables and the window. Proofs
--   in Deflate/Reads, Deflate/Ends, Dynamic/Ends, Gunzip/Ends and Gunzip/Stored.
-- * Probs and Chunk (src/tuxpac/unpack.c): `struct lzma`, and `lzma_chunk` as tokens that are
--   decoded one by one and written. Proofs in Chunk/Tokens, Chunk/Output and Chunk/Shrinks.
-- * Lzma2 and Xz (src/tuxpac/unpack.c): the chunks of a block, and `unxz` with its headers. Proofs
--   in Lzma2/Ends, Lzma2/Stored and Xz/Ends.
-- * Input (src/kernel/input.c): `Queue` is `struct queue`, with the functions of the file. Proofs
--   in Input/Ring, Input/Reports and Input/Keys.
-- * Shared and Shared/Calls (src/kernel/share.c): `Shared` is the file's variables, with the arrays
--   as functions of the index; the functions of the file have their names. Chains has the loops
--   over one-based chains, which walk to a place that a link is stored at. Shared/Sound has the
--   invariant and `view`, what the table says of its entries whatever chain they are on; proofs of
--   the calls in Shared/Alone, Shared/Drop, Shared/Grow, Shared/Add, Shared/Find, Shared/Written
--   and Shared/Again.
-- * Cache and Cache/Calls (src/modules/storage/cache.c): `Cache` is `struct state` with the
--   counters, a line's sectors a function from the number of the sector in it to what it holds; the
--   functions have their names, `chain` is `bucket_of`, and `slot` is cut where it enlarges the
--   room and where it buys a line. Cache/Cached has the invariant; proofs in Cache/Unhook,
--   Cache/Cap, Cache/Hook, Cache/Enlarge, Cache/Slot, Cache/Find and Cache/Read.
-- * Bytes and CString (src/kernel/string.c): blocks of memory and strings; memory is a function
--   from addresses to bytes. Proofs in Bytes/Blocks, Bytes/Moves, CString/Compare and
--   CString/Words.
-- * Base has what the others share, and Tests the runs on concrete inputs.
--
-- Numbers are ℕ, with the wrap of uint64_t and uint32_t written out where the code may reach it. A
-- C array with its length is the list of its bytes in use; the bounds of the arrays are then
-- theorems. The addresses a loose page's first word keeps are the list of the chain.
--
-- Fuel: `erase_while` has the length of the line, one erased character a round; `read_from` has one
-- more than the number of bytes wanted, since a round reads one at least; `fill_bits` has the
-- number of bits wanted, since a byte has eight; the loops of a literal have the eight bits of a
-- byte; `chunk_from` has the bytes to be written, one a round at least; `drain` goes down the chain
-- itself, which `run_add` leaves alone while there is room. The theorems on each of the callers
-- hold without a condition on fuel. `all_lengths` has the number of lengths wanted, one a round at
-- least, and gives no result if that is not enough, which `dynamic` passes on. `gunzip` and `unxz`
-- are given fuel, and return `none` only when it has run out: a round takes a bit at least, or a
-- byte, so 8 times the bytes of the source and 2, or the bytes and 1, are enough. The functions on
-- strings are given fuel above the length of the string. The word loops of `memset` and `memcpy`
-- have the count itself.
--
-- A walk over a chain of shared pages, or of lines of the cache, has as many rounds as there is
-- room for entries or lines; the entries of a chain are distinct and below that, so it is enough,
-- and the theorems on the calls hold without a condition on it. `cap` has as many rounds as there
-- are lines with memory, and a read of n sectors has n, as each round reads one at least.
--
-- Parameters: what `mem_alloc` and the clocks give an input device is an argument, and what its
-- drivers report while it is looked at is a list; whether it finds the bytes for a larger table of
-- shared pages is a function of their number; what the allocator says to the cache is an argument
-- for each round of a read, and the disk is any function that gives sectors or fails; the sink of
-- the window is any function of the block and of what it was given before, and the chunks of a
-- source are any list, as whoever fills them decides both.
--
-- Not modelled: writes through the disk cache and its command; the phase of mem.c before the
-- firmware lets go of the memory, and its map of it; the registration of the terminals' operations;
-- `xalloc` that fails in the unpacker; the file system, threads, processes, system calls, network
-- stack and drivers. Locks, interrupts and preemption are left out: an operation is one step.
pub mod Base
pub mod Memory
pub mod Pages
pub mod Pty
pub mod Terminals
pub mod Opening
pub mod Ioctl
pub mod Input
pub mod Chains
pub mod Shared
pub mod Cache
pub mod Source
pub mod Window
pub mod Inflate
pub mod Deflate
pub mod Dynamic
pub mod Gunzip
pub mod Lzma
pub mod Probs
pub mod Chunk
pub mod Lzma2
pub mod Xz
pub mod Bytes
pub mod CString
pub mod Tests

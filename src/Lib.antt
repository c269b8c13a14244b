-- ===== src/Lib.antt =====
-- Verification library of ShadeOS: the Rust part of the kernel, kernel-rs/src.
--
-- Parts and files.
-- - Base: Boolean tests, lists over native numbers, signed results.
-- - Heap: the allocator of kernel-rs/src/heap.rs. Block headers are records in a memory at
--   addresses; `kmalloc` and `kfree` are rust_kmalloc and rust_kfree. Layout gives the abstract view,
--   a list of segments; Chain ties it to the headers, and Linked to what their pointers lead to; Fit, Alloc and Free prove the operations against
--   it; Valid and Reach the states reached from init_heap, Live the blocks in use.
-- - Process: the process manager of kernel-rs/src/process.rs: processes, memory regions, access
--   checks, and its C interface. Table is about identifiers, Access about regions.
-- - Vfs: the in-memory file system of kernel-rs/src/vfs.rs, a tree of entries. Directory is about the
--   map of children, View the map from paths to what they show, Files, Names and Entries the changes
--   of it, Tree the shape of the tree, Refine and Reach the operations against that map, Listing the
--   lines of list_directory.
-- - Syscalls: rust_syscall_handler of kernel-rs/src/syscalls.rs and the calls that it dispatches,
--   which use Process and Vfs. Panic is about its logging, Frame about what calls change, Files and
--   Processes about calls on paths and processes, Reach about all states since start-up.
-- - Keyboard: the scancodes and the queue of kernel-rs/src/keyboard.rs.
-- - Vga: the text screen of kernel-rs/src/vga.rs: Scroll, Cursor and Text.
-- - Scheduler: rust_scheduler_tick of kernel-rs/src/scheduler.rs.
-- - Shell: strings, environment, aliases and history of kernel-rs/src/bash.rs, in Strings and Tables,
--   and the command line in Command: Typing about reading it, Words about its arguments.
-- - Elf: the loader of kernel-rs/src/elf.rs, which uses Heap and Vfs. The memory is bytes at addresses.
--   Load is rust_elf_load, with Header about the files that it takes, Fill, Segments, Passes and
--   Program about what stands in memory afterwards, and Ends about its loops. Link is dynamic linking,
--   with Dynamic, Symbols and Relocate. Bytes is about fields in memory, Serial about numbers as text.
-- - Drivers: the network cards of kernel-rs/src/rtl8139.rs and kernel-rs/src/e1000.rs. The first uses
--   Heap: Buffers is about what it allocates, New about a new device. Ring is about the rings of both.
-- - Network: the descriptors and the polling of kernel-rs/src/network.rs over the crate smoltcp, which
--   is a parameter: Table and Reach are about the descriptors, Poll about the loop, and
--   Sockets is the C interface.
--
-- What is not in kernel-rs is a parameter: smoltcp, and the Runtime of the ELF loader, which is
-- rust_paging_new_pml4 with the page that it writes, and what Rust's vectors and strings do to the heap,
-- since they allocate there too. Elsewhere such allocations are not followed: those of the file
-- system's tree, of dynamic linking, of the sockets and of received packets.
--
-- Conventions. Functions take the static variables that they use as an argument and return them
-- changed. Sizes, addresses and counters are native numbers, with the wrap-around of a release build
-- written out where the code can reach it; i32 and i64 results are signed numbers, errors negative.
-- Null pointers are 0 or none. Messages on the serial line are left out.
--
-- Bounds. The walk of the allocator runs on fuel, max_rounds, the number of headers that fit in the
-- heap: on a well-formed heap it ends before the fuel does, which is part of the theorem about
-- kmalloc. The loops of the ELF loader that end at an entry in memory, or at a zero byte, run on fuel
-- that the theorems take to be more than the number of entries. All other loops are structural.
--
-- Not modelled: of the shell (bash.rs, shell.rs) the dispatch of commands, most of which only print;
-- of elf.rs switch_to_user_mode, which nothing calls, and the demonstration of linking; the set-up of
-- the E1000 card, whose vectors grow on the heap, and its end; of network.rs connecting, sending and
-- ping, and what is calls of a crate that is not in the repository; pci_net.rs, the driver pcnet.rs,
-- the serial line, the bindings of C code (ext2.rs, memory.rs, vm.rs), the crate root
-- (lib.rs.template), and the C and assembly parts.
pub mod Base
pub mod Heap
pub mod Process
pub mod Vfs
pub mod Elf
pub mod Drivers
pub mod Network
pub mod Syscalls
pub mod Keyboard
pub mod Vga
pub mod Scheduler
pub mod Shell

-- ===== src/Lib.antt =====
-- Verification of a small microkernel for the Raspberry Pi 3, written in C.
--
-- The kernel keeps the physical pages of the machine in a bitmap with a descriptor per page, builds
-- page tables of three levels from them, gives each environment (process) a table of its own, and
-- schedules the environments in two run queues. The system calls work on these: they allocate, map
-- and unmap pages of an environment, create and destroy environments, and pass messages with pages.
--
-- A file server, itself an environment, keeps a disk of blocks with directories and answers requests
-- that other environments send to it as messages. The library of user programs gives them descriptors
-- of files, pipes and the console over these requests.
--
-- Files, each the root of a folder with its lemmas, and the code that they model:
-- Base.antt: helpers (tests on numbers, lists, binary digits); no code.
-- Pmap.antt: mm/pmap.c `page_alloc`, `page_free`, `page_decref`, include/pmap.h `struct Page` and
--   `page2kva`, kernel/main.c `bzero`. `Kmem` has `Kern_vis`, `Kern_pages` and the 64-bit words of
--   kernel memory by their address. A page is its index in `Kern_pages`.
-- PageTable.antt: mm/pmap.c `pgdir_walk`, `page_insert`, `page_lookup`, `page_remove`, `page_out`,
--   with the macros of include/mmu.h. A pointer into a table is the kernel address of the entry.
-- Sched.antt: kernel/sched.c `sched_yield` up to `env_run`. An environment is its index in `envs`;
--   a list of include/queue.h is the list of its elements in order.
-- Env.antt: kernel/env.c `env_init`, `mkenvid`, `envid2env`, `env_setup_vm`, `env_alloc`,
--   `env_free`. `Kernel` holds all variables of the kernel and the frame at `*TRAPSP`.
-- Syscall.antt: kernel/syscall_all.c, each handler under its name, with `env_run` and `env_destroy`
--   of kernel/env.c. A handler ends in an `Outcome`: it returns, enters an environment, panics, or
--   reads through a null pointer. Syscall/Devices has the handlers over the drivers of the console
--   and the SD card, which are parameters.
-- Print.antt: lib/print.c `lp_Print`, `PrintNum`, `PrintString`, `PrintChar`, and lib/printf.c
--   `printf`; user/writef.c holds a copy of both. A buffer is a function from positions to
--   characters, the calls of `output` are a stream, and a text is the list of its characters.
-- Pipe.antt: user/pipe.c `piperead`, `pipewrite` and their ring. What other environments do while a
--   call waits is a parameter. Pipe/Create has `pipe`, `_pipeisclosed`, `pipeisclosed`, `pipeclose`
--   over User.antt, Pipe/Made what `pipe` leaves.
-- Strings.antt: user/string.c `strlen`, `strcpy`, `strchr`, `memcpy`, `strcmp`, `strcat` on a
--   memory of bytes; addresses do not wrap around.
-- Fs.antt, with the folder Fs: fs/fs.c. Fs.antt has the blocks and the bitmap, Fs/Init `fs_init`
--   with its parts, Fs/File the blocks of a file, Fs/Dir directories, paths, and the functions that
--   open, create and remove a file; Fs/Run has the lemmas on running a `do` block. A function of the
--   code is a function from the state `Fs` to an `Outcome`: a result, an error with the state it
--   leaves, `user_panic`, or a lost page.
-- Serve.antt: fs/serv.c, the table `opentab`, and in Serve/Requests each `serve_` function over the
--   functions of Fs. The answer of a request is a `Reply`; `serve_request` is one round of the loop
--   of `serve`.
-- Fd.antt: user/fd.c, with read, write, seek and dup in Fd/Calls. `Proc` is a process with its page
--   table; a device is a record `Dev` of functions, as the code's `struct Dev`.
-- User.antt: user/syscall_lib.c, the system calls as a user program sees them: address spaces with
--   a frame and permissions per page, and the bytes of the frames; User/Run steps through a `do`
--   block. User/Bytes.antt has `user_bcopy` and `user_bzero` of user/fork.c.
-- Fork.antt: user/fork.c `fork`, `duppage`, `pgfault`, and user/pgfault.c. Fork/Share follows one
--   page through a round of the loops, Fork/Loop all of them, Fork/Copy the page fault.
-- Files.antt: user/fsipc.c, and in Files/Device user/file.c. The file server is the parameter
--   `answer`, a function from a request to an answer with a page. Files/Mapped has the loops that
--   map blocks, Files/Opens `open`, Files/Reads `file_read` and `file_write`, Files/Grows
--   `ftruncate`, Files/Writes a write that extends the file.
-- Elf.antt: kernel/kernel_elfloader.c `load_elf` over any callback, with the state that it works on
--   as a parameter. Elf/Pages has kernel/env.c `load_icode_mapper` and kernel/main.c `bcopy`,
--   Elf/Create kernel/env.c `load_icode`, `env_create_priority`, `env_create`, Elf/Run
--   steps through a `do` block. Elf/Headers, Elf/Bytes, Elf/Parts and Elf/Tiles have the lemmas on
--   the headers, on the bytes that `bcopy` and `bzero` leave, and on the parts of a segment.
-- Spawn.antt: user/spawn.c `init_stack`, and `init_stack_valist`, which is the same code over another
--   list of strings. Spawn/Words has the stores, Spawn/Stack the page that they leave. Spawn/Load has
--   `usr_load_elf`, Spawn/View, Spawn/Loaded and Spawn/Segment what a child sees behind its steps,
--   Spawn/Spawned `spawn` and `spawn_valist` behind the reading of the program's
--   header; what `seek` and `readn` give is a parameter, and so is the id of the child.
-- Links.antt: include/queue.h, the pointers of its lists. Links/Refine relates them to the lists of
--   elements that Sched.antt and Env.antt use; Links/Spine, Links/Insert and Links/Remove have the
--   lemmas on one list.
-- The file Tests of each folder holds concrete runs and the instances of the theorems.
--
-- Numbers are natural numbers with the wrap-around of the code's types written out. The shift
-- `1 << j` of an `int` is the machine's: the amount is taken modulo 32, and the result is extended with
-- its sign to 64 bits. Loops over a table or a bitmap recurse on the number of rounds left, which
-- is the code's bound. Only the scheduler's loop has no bound in the code: `sched_loop` takes fuel,
-- and the rounds that are enough when some environment can run are in a theorem of Sched/Runs. In
-- `lp_print` and `put_digits` the fuel counts rounds as well: each round takes a character of the
-- format or a binary digit of a number below 2 ^ 64 at least. In `readn` each round but the last
-- adds a byte at least, so that the number of bytes and one more are enough (Fd/Ends). The calls of
-- a pipe take fuel for the rounds that they wait and copy, and a routine on strings takes it for
-- the characters.
--
-- `image`, the number of pages of the boot image (`init_end / 4096`), is set by the linker and is a
-- parameter.
--
-- In User.antt `answer` says which frame the kernel gives for the next request, and `known` which
-- environments the caller may name. The three loops of `fork` are one loop over the 2 ^ 27 page
-- numbers. The loops over the blocks of a file have 2 ^ 20 + 1 rounds, which is more than a file of
-- 2 ^ 32 - 4096 bytes needs.
--
-- In Elf.antt the value that `entry_point` has before `load_elf` sets it is a parameter, `unset`. The
-- loops over the pages of a segment have 2 ^ 20 rounds, enough for the u32 sizes of the
-- kernel, and in Spawn.antt for an int that counts the bytes, which is kept as its 32-bit word.
--
-- The file system's memory is a function from addresses to 32-bit words, with a u64 as two of them,
-- as the code accesses u32 entries through `u64 *` pointers. `grants` says which of the file
-- server's calls of `syscall_mem_alloc` succeed. `sd_read` and `sd_write` copy a whole block and
-- succeed. The code accesses blocks that it has mapped; an access to another page is not detected.
-- The loop of `walk_path` takes a character of the path at least in each round, and its fuel is the
-- length of the path.
--
-- Not modelled: TLB flushes and barriers, the console and the driver of the SD card, the assembly
-- of boot and exceptions, the overflow of the int `width` and of `lp_Print`'s buffer, and the use
-- of a list's macros on an element that is already in a list. Sched.antt and Env.antt use lists of
-- elements, in which an environment that is inserted twice stands twice. The name of the
-- file that `spawn` opens, the tool that makes a disk image, and the shell with its programs are not
-- part of this development.
pub mod Base
pub mod Elf
pub mod Env
pub mod Fd
pub mod Files
pub mod Fork
pub mod Fs
pub mod Links
pub mod PageTable
pub mod Pipe
pub mod Pmap
pub mod Print
pub mod Sched
pub mod Serve
pub mod Spawn
pub mod Strings
pub mod Syscall
pub mod User

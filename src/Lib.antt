-- ===== src/Lib.antt =====
-- Verification of the sandbox, the firewall and the compartments of vmpl-apps.
--
-- A process of the sandbox runs an untrusted program in the same address space. Its system calls
-- trap: sandbox/src/trap.c checks what they refer to (Trap.Check), asks a monitor (for the firewall,
-- ufirewall/src/firewall.c), and then does the call itself (Trap.Handler), where memory calls go to
-- sandbox/src/umm.c (Umm) and execve to sandbox/src/exec.c (Exec).
--
-- Base: shared names, tests, lists, 64-bit words, constants of the Linux x86-64 headers.
-- Host: the calls of the kernel and of libdune. Neither is modelled: a Host answers each call as a
--    function of the log of all calls before it, and a Platform holds libdune's constants and macros.
--    What the theorems ask of them is IsPlatform (Host), IsKernel (Umm.Layout), IsCoded (Umm.Alloc) and
--    IsWordHost (Host.Replies).
-- Mem: mem_ref_is_safe of sandbox/include/sandbox.h, and check_extent, check_string and
--    check_iovec of trap.c. The laws are in Mem.Ranges.
-- Umm: every function of umm.c, as a function of the machine (the two static lengths and the log).
--    Umm.Layout has the two areas, Umm.Alloc what is handed out, Umm.Confined what is touched.
-- Exec: exec_execev. The page is a function of an index; Exec.Scan has the laws of its scans.
-- Trap: syscall_check_params (Trap.Check), the thread functions (Trap.Thread), the handlers
--    (Trap.Handler). The registers are 64-bit words; a switch on a system call number goes through
--    sys_of (Trap.Sys). Trap.Thread.Handshake has the two threads of dune_pthread_create as a step
--    relation, in which a call on an object that was destroyed is a state of its own. Trap.Race has
--    threads that are in mmap and mremap at the same time, Trap.Handler.Released the mutex around
--    the handlers, and Trap.Handler.Registers what they leave in the registers.
-- Firewall: the checks and the monitor; Firewall.Parse the parser of rules.
-- Loader: sandbox/src/main.c, trap_init of trap.c and get_err of sandbox.h; Loader.Start has the
--    argument block and boxer_main. The file is an argument: its header, and dune_elf_iter_ph as a
--    function of the visit; so is strlen. assert(found) gives `none`. What is written to the stack
--    of the program is a list of stores.
-- Sthread: wedge/src/sthread.c, compartments that share a process. Perms has what a compartment may
--    do, and Perms.Rights the same without the arrays, Tags the memory that compartments share, Pages
--    what a walk does to one page table entry,
--    Checkpoint the copy of the writable memory. Kernel, Handler and Master have the state and the
--    functions that change it, and System joins them to a step relation: the code of a compartment
--    is any row of system calls, and the runs that dune_jump_to_user starts nest. The kernel, libc
--    and libdune (the page walk, the clone of page tables) are a World. sthread_trampoline, which
--    is code of a compartment, is not modelled.
-- Sandbox: a whole run, from boxer_main through any row of system calls and page faults; and
--    sandbox/src/nullsandbox.c.
-- Wedge: programs over sthread.c. Wedge.Httpd is wedge/src/httpd.c: how a request is answered, over
--    an Os that answers the calls, with as many rounds of the loop as are given (more rounds than the
--    file has bytes are enough), and the compartment of a connection. Wedge.Bench is the measurement
--    of wedge/src/bench.c, and Wedge.Bench.Switch its benchmark of two page tables, with the entries
--    and the memory as functions, and libdune's clone and walk as a Vm. The sockets of httpd.c and
--    the other benchmarks are calls with results that are printed, and are not modelled.
-- Bench: the interrupts of bench/src/posted_ipi.c, bench_dune_ipi.c and bench_fork_ipi.c (Bench.Ipi), as
--    a step relation in which a spin is a step only where it ends, and dune_enter may fail.
--    The other programs of bench/src measure times and have no state but counters, and are not modelled.
-- Samples: a platform, a kernel and states for the witnesses.
--
-- An int that is returned as a word is kept as its sign extension. An Outcome tells a return from
-- the end of the process (exit, a failed assert). All loops are recursions on a list or on the
-- rounds left, so that no fuel is chosen: the scans of exec.c have as many rounds as the page has
-- bytes left. The memory that the checks read is fixed while they run: what other threads write in
-- between is not modelled. Output is left out.
--
-- Not part of a run of the sandbox: a fault that comes while a handler runs, the code of a new
-- thread (pthread_entry stores its identifier through an argument of clone), and what follows an
-- access behind the page of exec.c. Not part of a step of System: a compartment's writes to the
-- records of the monitor, which one that is resumed behind dune_jump_to_user could make, as schedule
-- leaves the page tables of the main program loaded.
pub mod Base
pub mod Host
pub mod Mem
pub mod Umm
pub mod Exec
pub mod Trap
pub mod Firewall
pub mod Samples
pub mod Loader
pub mod Sandbox
pub mod Wedge
pub mod Sthread
pub mod Bench

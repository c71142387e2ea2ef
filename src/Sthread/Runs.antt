-- ===== src/Sthread/Runs.antt =====
-- Runs of the monitor of sthread.c, and the witnesses of the theorems on it.
use vmpl_apps.Base.{true, some, ◌≡◌, ◌⊎◌, arith, none, refl, [], ◌∷◌, All}
use vmpl_apps.Sthread.Perms.{Sc, can_do_sys}
use vmpl_apps.Sthread.Tags.{smalloc}
use vmpl_apps.Sthread.Samples.{world, kernel}
use vmpl_apps.Sthread.Kernel.{
  Kernel, Sthread, Regs, running, zombie, Outcome, ret, stop, undef, kmalloc, thread_at, put_thread,
}
use vmpl_apps.Sthread.Handler.{Exit, next_running, schedule, syscall_handler, passthrough_syscall}
use vmpl_apps.Sthread.Handler.Starves.{HasFront, schedule_starves}
use vmpl_apps.Sthread.Master.{joined, find_id, join_found, sthread_create, sthread_join}
use vmpl_apps.Sthread.Master.Twice.{sthread_join_twice}
use vmpl_apps.Sthread.System.{System, in_handler, in_main, Reach, here, later, returns, creates}
use vmpl_apps.Sthread.System.Granted.Threads.{IsAuthorised}
use vmpl_apps.Sthread.System.Granted.Reached.{passes_granted}
use vmpl_apps.Sthread.System.Launched.{IsLaunched, sthread_create-IsLaunched}

-- Calls 16 and 2, and standard output for writing.
abbrev sc : Sc
sc = record {
  sc_mem = 0 ∷ 0 ∷ [];
  sc_fd = 0x102 ∷ 0 ∷ 0 ∷ [];
  sc_sys = 4 ∷ 0 ∷ 1 ∷ 0 ∷ 0 ∷ 0 ∷ 0 ∷ 0 ∷ 0 ∷ 0 ∷ 0 ∷ 0 ∷ 0 ∷ 0 ∷ 0 ∷ 0 ∷ [];
}

abbrev start : System
start = record { kernel = kernel; callers = [] }

-- Call 16, and exit with 7.
abbrev call_16 : Regs
call_16 = record { rax = 16; rdi = 0; rsi = 0; rdx = 0; arg3 = 0; rip = 0; rsp = 0; eflags = 2 }

abbrev exits : Regs
exits = record call_16 { rax = 666; rdi = 7 }

-- Call 60 is granted to none.
abbrev call_60 : Regs
call_60 = record call_16 { rax = 60 }

-- A compartment is made, and makes call 16.
abbrev first_run : (t : System) × Reach world start t
unfolding sthread_create kmalloc smalloc put_thread thread_at syscall_handler can_do_sys
    passthrough_syscall
first_run = (
  _,
  later (later here (creates sc 0x400900 3 1 _ refl refl)) (returns call_16 _ in_main [] refl refl),
)

passes_granted_example : All (IsAuthorised world) first_run.0.kernel.log
passes_granted_example = passes_granted world refl refl tt first_run.1

-- Two compartments, of which the second was entered from a handler of the first.
abbrev thread : Sthread
thread = record {
  self = 0x8000198;
  st_id = 1;
  st_state = running;
  st_ret = 0;
  st_stack = 0x10000000;
  st_pgroot = 0x2000;
  st_tf = call_16;
  st_sc = sc;
  st_writable = 0x20000000;
  st_walk = 4096;
}

abbrev inner : System
inner = record {
  kernel = record kernel { ks_sthreads = thread ∷ []; ks_current = 0x8000198; cr3 = 0x2000 };
  callers = in_handler ∷ in_main ∷ [];
}

abbrev kernel_of : Outcome Exit → Kernel
kernel_of (ret e k) = k
kernel_of (stop k) = k
kernel_of (undef k) = k

-- Behind the exit of the only compartment.
abbrev exited : Kernel
exited = kernel_of (syscall_handler world exits inner.kernel)

-- What sthread_create gives.
abbrev made : (e : Exit) × (k : Kernel) × (sthread_create world sc 0x400900 3 kernel ≡ ret (1, e) k)
unfolding sthread_create kmalloc smalloc put_thread
made = (_, _, refl)

sthread_create-IsLaunched_example : IsLaunched world kernel sc 0x400900 3 (1, made.0) made.1
sthread_create-IsLaunched_example =
    sthread_create-IsLaunched world sc 0x400900 3 1 made.0 kernel made.1 made.2

-- Two compartments wait, behind which a third would.
abbrev pair : Kernel
pair = record kernel {
  ks_sthreads =
      thread
      ∷ record thread { self = 0x8000400; st_id = 2 }
      ∷ record thread { self = 0x8000800 }
      ∷ [];
}

schedule_starves_example :
    (e : Exit) × (k : Kernel) × (schedule world true pair ≡ ret e k)
    × HasFront world 0x8000198 0x8000400 (record thread { self = 0x8000800 } ∷ []) k
    × ((k.ks_current ≡ 0x8000198) ⊎ (k.ks_current ≡ 0x8000400))
schedule_starves_example =
    schedule_starves world true 0x8000198 0x8000400 (record thread { self = 0x8000800 } ∷ []) pair
      (omega arith)
      (thread, record thread { self = 0x8000400; st_id = 2 }, refl, refl, refl, refl, refl)

-- A compartment that has exited with 7, and is joined.
abbrev over : Kernel
over = record kernel { ks_sthreads = record thread { st_state = zombie; st_ret = 7 } ∷ [] }

abbrev first_join : (k : Kernel) × (sthread_join world 1 over ≡ ret (joined 7) k)
unfolding sthread_join join_found find_id put_thread
first_join = (_, refl)

only_thread :
    (s : Sthread) → find_id 1 over.ks_sthreads ≡ some s → thread_at s.self over.ks_sthreads ≡ some s
unfolding find_id thread_at
only_thread s e = ground arith

none_runs : next_running first_join.0.ks_current first_join.0.ks_sthreads ≡ none
unfolding next_running put_thread first_join
none_runs = refl

sthread_join_twice_example : sthread_join world 1 first_join.0 ≡ stop first_join.0
sthread_join_twice_example =
    sthread_join_twice world 1 7 over first_join.0 first_join.1 only_thread none_runs

-- ===== src/Sthread/Handler.antt =====
-- wedge/src/sthread.c: schedule and syscall_handler.
pub mod Blocked
pub mod Starves
use vmpl_apps.Base.{
  ℕ, zero, suc, ◌+◌, ◌-◌, ◌%◌, ◌^◌, Bool, true, false, ◌&&◌, not, Option, none, some, List, [], ◌∷◌,
  bit_and, bit_or, leb, ltb, ◌==◌, ◌!=◌, if◌then◌else◌,
}
use vmpl_apps.Base.Words.{◌+w◌, neg, low32}
use vmpl_apps.Base.Linux.{einval}
use vmpl_apps.Sthread.{Result, ok, stopped, undefined, prot_read, prot_write, is_negative, sign_ext}
use vmpl_apps.Sthread.Perms.{Sc, sc_fd_add, has_fd_perm, can_do_sys}
use vmpl_apps.Sthread.Kernel.{
  World, Kernel, Sthread, Regs, Space, StState, running, zombie, Outcome, ret, K, pure, ◌>>=◌, ◌>>◌,
  die, get, modify, record_event, passthrough, open_file, thread_at, store_thread, recycle,
  has_mem_perm, undef,
}

-- How a function of the monitor ends: it returns to the code that was interrupted, with the frame;
-- dune_jump_to_user runs a compartment from a frame; dune_ret_from_user ends the innermost such run.
pub data Exit : Type 0 where
  back jump : (tf : Regs) → Exit
  leave : (status : ℕ) → Exit

abbrev pub is_running : StState → Bool
is_running running = true
is_running _ = false

unfoldable pub next_running : (current : ℕ) → List Sthread → Option Sthread
next_running current [] = none
next_running current (s ∷ next) =
    let rest = next_running current next in
    if (s.self != current) && is_running s.st_state then some s else rest

module _ (w : World) where
  -- dune_passthrough_syscall: the call is done with the rights of the process.
  unfoldable pub passthrough_syscall : Sc → Regs → K Regs
  passthrough_syscall sc tf = do
    k ← get
    record_event (passthrough sc tf)
    pure (record tf { rax = w.passthrough_rax k.log tf })

  unfoldable pub run_thread : Sthread → K Exit
  unfolding passthrough_syscall
  run_thread s = do
    modify (λ k. record k { ks_current = s.self; cr3 = s.st_pgroot })
    tf ← passthrough_syscall s.st_sc s.st_tf
    store_thread (record s { st_tf = tf })
    pure (jump tf)

  unfoldable pub run_next : (tf : Bool) → Option Sthread → K Exit
  unfolding run_thread
  run_next tf (some s) = run_thread s
  run_next true none = pure (leave (2 ^ 64 - 1))
  run_next false none = die

  -- `tf` is NULL or not. (What follows dune_jump_to_user is after_jump of System.)
  unfoldable pub schedule : (tf : Bool) → K Exit
  unfolding run_next next_running
  schedule tf = do k ← get; run_next tf (next_running k.ks_current k.ks_sthreads)

  -- The descriptor and the right that a call needs (SYS_read, SYS_write, SYS_close).
  unfoldable pub fd_check : (syscall_num : ℕ) → Regs → Option (ℕ × ℕ)
  fd_check num tf =
      if num == 0
      then some (low32 tf.rdi, prot_read)
      else if num == 1
      then some (low32 tf.rdi, prot_write)
      else if num == 3
      then some (low32 tf.rdi, prot_write)
      else none

  -- `*ptr` and `len` (SYS_open, SYS_write, SYS_read).
  unfoldable pub mem_check : (syscall_num : ℕ) → Regs → Kernel → Option (ℕ × ℕ)
  mem_check num tf k =
      if num == 2
      then some (tf.rdi, w.strlen k.space.bytes tf.rdi)
      else if num == 1
      then some (tf.rsi, tf.rdx)
      else if num == 0
      then some (tf.rsi, tf.rdx)
      else none

  -- `*ptr = v`.
  unfoldable pub set_ptr : (syscall_num v : ℕ) → Regs → Regs
  set_ptr num v tf = if num == 2 then record tf { rdi = v } else record tf { rsi = v }

  abbrev pub blocked : Regs → K Exit
  blocked tf = pure (back (record tf { rax = neg einval }))

  unfoldable pub do_exit : Sthread → Regs → K Exit
  do_exit s tf = do
    s' ← recycle w (record s { st_ret = tf.rdi })
    store_thread (record s' { st_state = zombie })
    pure (leave (sign_ext (low32 tf.rdi)))

  -- The new descriptor becomes readable and writable.
  unfoldable pub fd_granted : Sthread → Regs → Result Sc → K Exit
  fd_granted s tf (ok sc) = do store_thread (record s { st_sc = sc }); pure (back tf)
  fd_granted s tf stopped = die
  fd_granted s tf undefined = undef

  unfoldable pub do_open : Sthread → Regs → K Exit
  unfolding fd_granted
  do_open s tf = do
    k ← get
    record_event (open_file s.st_sc tf.rdi tf.rsi tf.rdx tf.arg3)
    let rc = low32 (w.open_result k.log)
    let tf' = record tf { rax = sign_ext rc }
    if is_negative rc
        then pure (back tf')
        else fd_granted s tf' (sc_fd_add rc (bit_or prot_read prot_write) s.st_sc)

  unfoldable pub do_read : Sthread → Regs → K Exit
  do_read s tf = do store_thread (record s { st_tf = tf }); schedule true

  unfoldable pub do_other : Sthread → Regs → K Exit
  do_other s tf = do tf' ← passthrough_syscall s.st_sc tf; pure (back tf')

  -- `/* special treatment */` and what follows.
  unfoldable pub special : (syscall_num : ℕ) → Sthread → Regs → K Exit
  unfolding do_exit do_open do_read do_other
  special num s tf =
      if num == 666
      then do_exit s tf
      else if num == 0
      then do_read s tf
      else if num == 2
      then do_open s tf
      else do_other s tf

  -- The result of has_mem_perm.
  unfoldable pub after_mem_perm : (syscall_num ptr : ℕ) → Regs → Bool × Sthread → K Exit
  unfolding special set_ptr
  after_mem_perm num ptr tf (true, s) =
      special num s (set_ptr num (s.st_walk +w bit_and ptr 0xfff) tf)
  after_mem_perm num ptr tf (false, s) = blocked tf

  -- `/* check memory */`, of a pointer and a length.
  unfoldable pub memory_checked : (syscall_num : ℕ) → Sthread → Regs → Option (ℕ × ℕ) → K Exit
  unfolding after_mem_perm
  memory_checked num s tf none = special num s tf
  memory_checked num s tf (some (ptr, len)) =
      if s.st_walk == 0 then die else do r ← has_mem_perm w s ptr len; after_mem_perm num ptr tf r

  unfoldable pub check_memory : (syscall_num : ℕ) → Sthread → Regs → K Exit
  unfolding mem_check memory_checked
  check_memory num s tf = do k ← get; memory_checked num s tf (mem_check num tf k)

  -- `/* check FDs */`, of a descriptor and a right.
  unfoldable pub fds_checked : (syscall_num : ℕ) → Sthread → Regs → Option (ℕ × ℕ) → K Exit
  unfolding check_memory
  fds_checked num s tf none = check_memory num s tf
  fds_checked num s tf (some (fd, perm)) =
      if has_fd_perm s.st_sc fd perm then check_memory num s tf else blocked tf

  -- The result of can_do_sys.
  unfoldable pub sys_checked : (syscall_num : ℕ) → Sthread → Regs → Result Bool → K Exit
  unfolding fds_checked fd_check
  sys_checked num s tf (ok true) = fds_checked num s tf (fd_check num tf)
  sys_checked num s tf (ok false) = blocked tf
  sys_checked num s tf stopped = die
  sys_checked num s tf undefined = undef

  -- can_do_sys(NULL, num) ends the process for a number behind its bound, and it, or what follows it,
  -- uses the NULL pointer for any other.
  unfoldable pub null_checked : (syscall_num : ℕ) → Result Bool → K Exit
  null_checked num stopped = die
  null_checked num _ = undef

  abbrev no_rights : Sc
  no_rights = record { sc_mem = []; sc_fd = []; sc_sys = [] }

  -- `current`, which may be NULL. (That can_do_sys stops is decided without its array.)
  unfoldable pub current_checked : Regs → Option Sthread → K Exit
  unfolding sys_checked null_checked
  current_checked tf none = null_checked (low32 tf.rax) (can_do_sys no_rights (low32 tf.rax))
  current_checked tf (some s) = sys_checked (low32 tf.rax) s tf (can_do_sys s.st_sc (low32 tf.rax))

  unfoldable pub syscall_handler : Regs → K Exit
  unfolding current_checked
  syscall_handler tf = do k ← get; current_checked tf (thread_at k.ks_current k.ks_sthreads)

-- ===== src/Trap/Handler/Released.antt =====
-- _syscall_mtx around the handlers.
use vmpl_apps.Base.{
  ℕ, ◌%◌, ◌≡◌, ◌≢◌, refl, ap, inl, inr, Bool, Bool-cases, true, false, ◌∷◌, ◌!=◌, if◌then◌else◌,
  arith,
}
use vmpl_apps.Base.Words.{low32}
use vmpl_apps.Host.{
  Platform, Host, M, Machine, Outcome, ret, dead, machine_of, lock, unlock, vm_lookup, ask, pure,
  exit, ◌>>=◌,
}
use vmpl_apps.Host.Stays.{Stays, bind-Stays, pure-Stays}
use vmpl_apps.Host.Mutex.{Mutex, mutex, unlocked, locked, IsAt, Lockless}
use vmpl_apps.Mem.{Memory}
use vmpl_apps.Exec.Quiet.{exec_execev-Lockless}
use vmpl_apps.Umm.Lockless.{
  umm_brk-Lockless, umm_mmap-Lockless, umm_munmap-Lockless, umm_mprotect-Lockless,
  umm_shmat-Lockless, umm_mremap-Lockless,
}
use vmpl_apps.Trap.Frame.{Tf}
use vmpl_apps.Trap.Sys.{Sys, sys_of}
use vmpl_apps.Trap.Thread.Quiet.{dune_clone-Lockless}
use vmpl_apps.Trap.Check.{Verdict, refs, refuse, abort, syscall_check_params}
use vmpl_apps.Trap.Handler.{
  Monitor, set_rax, do_call, do_arch_prctl, do_passthrough, do_exit, syscall_do_foreal, need_lock,
  syscall_do, after_allow, after_check, syscall_allow, syscall_handler, pgflt_handler,
}

-- Behind a return the mutex is free, and where the process has ended it was never broken.
abbrev pub IsReleased {ℓ} : {A : Type ℓ} → Outcome A → Type 0
IsReleased (ret a s) = IsAt Mutex.free s
IsReleased (dead s) = mutex s.log ≢ Mutex.broken

is_broken : Mutex → ℕ
is_broken Mutex.broken = 1
is_broken _ = 0

free_sound : (m : Mutex) → m ≡ Mutex.free → m ≢ Mutex.broken
unfolding is_broken
free_sound m e e' = omega (arith, ap is_broken e, ap is_broken e')

held_sound : (m : Mutex) → m ≡ Mutex.held → m ≢ Mutex.broken
unfolding is_broken
held_sound m e e' = omega (arith, ap is_broken e, ap is_broken e')

released {ℓ} : {A : Type ℓ} (o : Outcome A) → IsAt Mutex.free (machine_of o) → IsReleased o
released (ret a s) e = e
released (dead s) e = free_sound (mutex s.log) e

-- A function that is given a free mutex goes on from each return.
pub bind-IsReleased {ℓ κ} :
    {A : Type ℓ} {B : Type κ} (o : Outcome A) (f : A → M B)
    → IsReleased o
    → ((a : A) (s : Machine) → IsAt Mutex.free s → IsReleased (f a s))
    → IsReleased (elim o [ ret a s ↦ f a s | dead s ↦ dead s ])
bind-IsReleased (ret a s) f i k = k a s i
bind-IsReleased (dead s) f i k = i

module _ (pl : Platform) (h : Host) where
  set_rax-Lockless : (tf : Tf) (m : M ℕ) → Lockless m → Lockless (set_rax tf m)
  unfolding Lockless
  set_rax-Lockless tf m l v =
      bind-Stays (IsAt v) m _ (l v) (λ r. pure-Stays (IsAt v) (record tf { rax = r }))

  do_call-Lockless : (c : Sys) (tf : Tf) → Lockless (do_call pl h c tf)
  unfolding do_call do_arch_prctl do_exit do_passthrough
  do_call-Lockless Sys.brk tf = set_rax-Lockless tf _ (umm_brk-Lockless pl h tf.arg0)
  do_call-Lockless Sys.mmap tf = set_rax-Lockless tf _ (
      umm_mmap-Lockless pl h tf.arg0 tf.arg1 (low32 tf.arg2) (low32 tf.arg3) (low32 tf.arg4)
        tf.arg5)
  do_call-Lockless Sys.mprotect tf =
      set_rax-Lockless tf _ (umm_mprotect-Lockless pl h tf.arg0 tf.arg1 tf.arg2)
  do_call-Lockless Sys.munmap tf = set_rax-Lockless tf _ (umm_munmap-Lockless pl h tf.arg0 tf.arg1)
  do_call-Lockless Sys.mremap tf =
      set_rax-Lockless tf _
        (umm_mremap-Lockless pl h tf.arg0 tf.arg1 tf.arg2 (low32 tf.arg3) tf.arg4)
  do_call-Lockless Sys.shmat tf =
      set_rax-Lockless tf _ (umm_shmat-Lockless pl h (low32 tf.arg0) tf.arg1 (low32 tf.arg2))
  do_call-Lockless Sys.clone tf = set_rax-Lockless tf _ (dune_clone-Lockless h tf)
  do_call-Lockless Sys.execve tf =
      set_rax-Lockless tf _ (exec_execev-Lockless h tf.arg0 tf.arg1 tf.arg2)
  do_call-Lockless _ tf = unfold Lockless Stays mutex in (λ v s i. ground arith)

  -- What follows a call under the mutex.
  abbrev unlock_behind : Tf → M Tf
  unlock_behind tf = do r ← ask h unlock; if r != 0 then exit else pure tf

  unlock_behind-IsReleased :
      (o : Outcome Tf)
      → IsAt Mutex.held (machine_of o)
      → IsReleased (elim o [ ret tf s ↦ unlock_behind tf s | dead s ↦ dead s ])
  unfolding mutex unlocked
  unlock_behind-IsReleased (ret tf s) i =
      let free_now : mutex (unlock ∷ s.log) ≡ Mutex.free = rw i refl in
      elim (Bool-cases (h.reply s.log unlock != 0)) [
        | inl e ↦ rw e (free_sound (unlocked (mutex s.log)) free_now)
        | inr e ↦ rw e free_now
      ]
  unlock_behind-IsReleased (dead s) i = held_sound (mutex s.log) i

  syscall_do-IsReleased :
      (tf : Tf) (s : Machine) → IsAt Mutex.free s → IsReleased (syscall_do pl h tf s)
  unfolding syscall_do syscall_do_foreal Lockless Stays mutex locked
  syscall_do-IsReleased tf s i =
      let s' = record s { log = lock ∷ s.log } in
      let held_now : mutex (lock ∷ s.log) ≡ Mutex.held = rw i refl in
      let call = do_call pl h (sys_of tf.rax) tf in
      elim (Bool-cases (need_lock pl h (sys_of tf.rax))) [
        | inl e ↦ elim (Bool-cases (h.reply s.log lock != 0)) [
          | inl e' ↦ rw (e, e') (held_sound (mutex s'.log) held_now)
          | inr e' ↦
              rw (e, e')
                (unlock_behind-IsReleased (call s')
                  (do_call-Lockless (sys_of tf.rax) tf Mutex.held s' held_now))
        ]
        | inr e ↦ rw e (released (call s) (do_call-Lockless (sys_of tf.rax) tf Mutex.free s i))
      ]

  check-IsReleased :
      (monitor : Monitor) (tf : Tf) (v : Verdict) (s : Machine)
      → IsAt Mutex.free s
      → IsReleased (after_check pl h monitor tf v s)
  unfolding after_check after_allow
  check-IsReleased monitor tf (refs ptr len str err) s i = allowed (syscall_allow monitor tf)
    where
      allowed : (r : Bool × Tf) → IsReleased (after_allow pl h r s)
      allowed (false, tf') = i
      allowed (true, tf') = syscall_do-IsReleased tf' s i
  check-IsReleased monitor tf (refuse r) s i = i
  check-IsReleased monitor tf abort s i = free_sound (mutex s.log) i

  pub syscall_handler-IsReleased :
      (mem : Memory) (monitor : Monitor) (tf : Tf) (s : Machine)
      → IsAt Mutex.free s
      → IsReleased (syscall_handler pl h mem monitor tf s)
  unfolding syscall_handler
  syscall_handler-IsReleased mem monitor tf s i =
      check-IsReleased monitor tf (syscall_check_params pl mem tf) s i

  pub pgflt_handler-IsReleased :
      (addr fec : ℕ) (tf : Tf) (s : Machine)
      → IsAt Mutex.free s
      → IsReleased (pgflt_handler pl h addr fec tf s)
  unfolding pgflt_handler mutex locked unlocked
  pgflt_handler-IsReleased addr fec tf s i =
      let held_now : mutex (lock ∷ s.log) ≡ Mutex.held = rw i refl in
      let found = vm_lookup addr ∷ lock ∷ s.log in
      elim (Bool-cases (tf.cs % 4 != 0)) [
        | inl e ↦ rw e i
        | inr e ↦ elim (Bool-cases (h.reply (lock ∷ s.log) (vm_lookup addr) != 0)) [
          | inl e' ↦ rw (e, e') (held_sound (mutex found) held_now)
          | inr e' ↦ rw (e, e', i) refl
        ]
      ]

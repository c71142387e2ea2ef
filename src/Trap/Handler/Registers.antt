-- ===== src/Trap/Handler/Registers.antt =====
-- The registers behind a system call.
use vmpl_apps.Base.{
  ℕ, ◌<◌, ◌^◌, ◌≡◌, refl, ap, ◌∙◌, inl, inr, Bool, Bool-cases, true, false, none, some, ◌∷◌, ◌!=◌,
  ◌==◌, if◌then◌else◌, arith,
}
use vmpl_apps.Base.Words.{low32}
use vmpl_apps.Base.Linux.{arch_get_fs, arch_set_fs}
use vmpl_apps.Host.{
  Platform, IsPlatform, Host, M, Machine, Outcome, ret, dead, lock, unlock, passthrough, ask, pure,
  exit, ◌>>=◌,
}
use vmpl_apps.Host.Replies.{IsWord, IsWordHost}
use vmpl_apps.Mem.{Memory}
use vmpl_apps.Exec.{exec_execev}
use vmpl_apps.Exec.Quiet.{exec_execev-IsWord}
use vmpl_apps.Umm.{umm_brk, umm_mmap, umm_mprotect, umm_munmap, umm_mremap, umm_shmat}
use vmpl_apps.Umm.Words.{
  umm_brk-IsWord, umm_mmap-IsWord, umm_munmap-IsWord, umm_mprotect-IsWord, umm_shmat-IsWord,
  umm_mremap-IsWord,
}
use vmpl_apps.Trap.Frame.{Tf}
use vmpl_apps.Trap.Sys.{Sys, sys_of}
use vmpl_apps.Trap.Thread.{dune_clone}
use vmpl_apps.Trap.Thread.Quiet.{dune_clone-IsWord}
use vmpl_apps.Trap.Check.{Verdict, refs, refuse, abort, syscall_check_params}
use vmpl_apps.Trap.Check.Sound.{IsFrame, syscall_check_params_refuses}
use vmpl_apps.Trap.Handler.{
  Monitor, set_rax, do_call, do_arch_prctl, do_passthrough, do_exit, syscall_do_foreal, need_lock,
  syscall_do, after_allow, after_check, syscall_allow, syscall_handler,
}

-- A frame that differs in `rax` at most, which is a word.
abbrev pub IsReturn : Tf → Tf → Type 0
IsReturn tf tf' = (tf' ≡ record tf { rax = tf'.rax }) × (tf'.rax < 2 ^ 64)

-- The same of a call that returns.
abbrev pub Leaves : Tf → Outcome Tf → Type 0
Leaves tf (ret tf' s) = IsReturn tf tf'
Leaves tf (dead s) = Unit

-- A monitor that does no more to the registers.
abbrev pub IsTame : Monitor → Type 0
IsTame none = Unit
IsTame (some m) = (tf : Tf) → tf.rax < 2 ^ 64 → IsReturn tf (m tf).1

IsReturn-IsFrame : (tf tf' : Tf) → IsFrame tf → IsReturn tf tf' → IsFrame tf'
IsReturn-IsFrame tf tf' w r =
    rw r.0 (record {
      word0 = w.word0;
      word1 = w.word1;
      word2 = w.word2;
      word3 = w.word3;
      word4 = w.word4;
    })

rax_of-Leaves :
    (tf : Tf) (o : Outcome ℕ)
    → IsWord o
    → Leaves tf (elim o [ ret r s ↦ ret (record tf { rax = r }) s | dead s ↦ dead s ])
rax_of-Leaves tf (ret r s) w = (refl, w)
rax_of-Leaves tf (dead s) w = tt

set_rax-Leaves : (tf : Tf) (m : M ℕ) (s : Machine) → IsWord (m s) → Leaves tf (set_rax tf m s)
set_rax-Leaves tf m s w = rax_of-Leaves tf (m s) w

module _ (pl : Platform) (ok : IsPlatform pl) (h : Host) (w : IsWordHost h) where
  do_call-Leaves :
      (c : Sys) (tf : Tf) (s : Machine)
      → IsFrame tf
      → tf.rax < 2 ^ 64
      → Leaves tf (do_call pl h c tf s)
  unfolding do_call do_arch_prctl do_exit do_passthrough
  do_call-Leaves Sys.arch_prctl tf s f lt = elim (Bool-cases (tf.arg0 == arch_get_fs)) [
    | inl e ↦ rw e (refl, omega arith)
    | inr e ↦ elim (Bool-cases (tf.arg0 == arch_set_fs)) [
      | inl e' ↦ rw (e, e') (refl, omega arith)
      | inr e' ↦ rw (e, e') (refl, omega arith)
    ]
  ]
  do_call-Leaves Sys.brk tf s f lt =
      set_rax-Leaves tf (umm_brk pl h tf.arg0) s (umm_brk-IsWord pl ok h w s tf.arg0 f.word0)
  do_call-Leaves Sys.mmap tf s f lt =
      set_rax-Leaves tf
        (umm_mmap pl h tf.arg0 tf.arg1 (low32 tf.arg2) (low32 tf.arg3) (low32 tf.arg4) tf.arg5) s
        (umm_mmap-IsWord pl ok h w s tf.arg0 tf.arg1 (low32 tf.arg2) (low32 tf.arg3) (low32 tf.arg4)
          tf.arg5 f.word0)
  do_call-Leaves Sys.mprotect tf s f lt =
      set_rax-Leaves tf (umm_mprotect pl h tf.arg0 tf.arg1 tf.arg2) s
        (umm_mprotect-IsWord pl ok h w s tf.arg0 tf.arg1 tf.arg2)
  do_call-Leaves Sys.munmap tf s f lt =
      set_rax-Leaves tf (umm_munmap pl h tf.arg0 tf.arg1) s
        (umm_munmap-IsWord pl ok h w s tf.arg0 tf.arg1)
  do_call-Leaves Sys.mremap tf s f lt =
      set_rax-Leaves tf (umm_mremap pl h tf.arg0 tf.arg1 tf.arg2 (low32 tf.arg3) tf.arg4) s
        (umm_mremap-IsWord pl ok h w s tf.arg0 tf.arg1 tf.arg2 (low32 tf.arg3) tf.arg4 f.word4)
  do_call-Leaves Sys.shmat tf s f lt =
      set_rax-Leaves tf (umm_shmat pl h (low32 tf.arg0) tf.arg1 (low32 tf.arg2)) s
        (umm_shmat-IsWord pl ok h w s (low32 tf.arg0) tf.arg1 (low32 tf.arg2) f.word1)
  do_call-Leaves Sys.clone tf s f lt =
      set_rax-Leaves tf (dune_clone h tf) s (dune_clone-IsWord h w tf s)
  do_call-Leaves Sys.execve tf s f lt =
      set_rax-Leaves tf (exec_execev h tf.arg0 tf.arg1 tf.arg2) s
        (exec_execev-IsWord h w tf.arg0 tf.arg1 tf.arg2 s)
  do_call-Leaves Sys.exit tf s f lt = (refl, lt)
  do_call-Leaves Sys.exit_group tf s f lt = (refl, lt)
  do_call-Leaves Sys.rt_sigaction tf s f lt = (refl, omega arith)
  do_call-Leaves Sys.rt_sigprocmask tf s f lt = (refl, omega arith)
  do_call-Leaves Sys.sigaltstack tf s f lt = (refl, omega arith)
  do_call-Leaves Sys.signalfd tf s f lt = (refl, omega arith)
  do_call-Leaves Sys.signalfd4 tf s f lt = (refl, omega arith)
  do_call-Leaves Sys.rt_sigpending tf s f lt = (refl, omega arith)
  do_call-Leaves Sys.rt_sigreturn tf s f lt = (refl, omega arith)
  do_call-Leaves Sys.rt_sigsuspend tf s f lt = (refl, omega arith)
  do_call-Leaves Sys.rt_sigqueueinfo tf s f lt = (refl, omega arith)
  do_call-Leaves Sys.rt_sigtimedwait tf s f lt = (refl, omega arith)
  do_call-Leaves _ tf s f lt =
      (refl, w.reply_lem s.log (passthrough tf.rax tf.arg0 tf.arg1 tf.arg2 tf.arg3 tf.arg4 tf.arg5))

  -- What follows a call under the mutex.
  abbrev unlock_behind : Tf → M Tf
  unlock_behind tf = do r ← ask h unlock; if r != 0 then exit else pure tf

  unlock_behind-Leaves :
      (tf : Tf) (o : Outcome Tf)
      → Leaves tf o
      → Leaves tf (elim o [ ret tf' s ↦ unlock_behind tf' s | dead s ↦ dead s ])
  unlock_behind-Leaves tf (ret tf' s) l = elim (Bool-cases (h.reply s.log unlock != 0)) [
    | inl e ↦ rw e tt
    | inr e ↦ rw e l
  ]
  unlock_behind-Leaves tf (dead s) l = tt

  syscall_do-Leaves :
      (tf : Tf) (s : Machine) → IsFrame tf → tf.rax < 2 ^ 64 → Leaves tf (syscall_do pl h tf s)
  unfolding syscall_do syscall_do_foreal
  syscall_do-Leaves tf s f lt =
      let s' = record s { log = lock ∷ s.log } in
      let call = do_call pl h (sys_of tf.rax) tf in
      elim (Bool-cases (need_lock pl h (sys_of tf.rax))) [
        | inl e ↦ elim (Bool-cases (h.reply s.log lock != 0)) [
          | inl e' ↦ rw (e, e') tt
          | inr e' ↦
              rw (e, e')
                (unlock_behind-Leaves tf (call s') (do_call-Leaves (sys_of tf.rax) tf s' f lt))
        ]
        | inr e ↦ rw e (do_call-Leaves (sys_of tf.rax) tf s f lt)
      ]

  -- A frame that differs in `rax` from one that differs in `rax`.
  Leaves-trans : (tf tf' : Tf) (o : Outcome Tf) → IsReturn tf tf' → Leaves tf' o → Leaves tf o
  Leaves-trans tf tf' (ret tf'' s) r l =
      (l.0 ∙ ap (λ (t : Tf). record t { rax = tf''.rax }) r.0, l.1)
  Leaves-trans tf tf' (dead s) r l = tt

  allow-Leaves :
      (tf : Tf) (r : Bool × Tf) (s : Machine)
      → IsFrame tf
      → IsReturn tf r.1
      → Leaves tf (after_allow pl h r s)
  unfolding after_allow
  allow-Leaves tf (false, tf') s f r = r
  allow-Leaves tf (true, tf') s f r =
      Leaves-trans tf tf' (syscall_do pl h tf' s) r
        (syscall_do-Leaves tf' s (IsReturn-IsFrame tf tf' f r) r.1)

  after-Leaves :
      (monitor : Monitor) (tf : Tf) (v : Verdict) (s : Machine)
      → IsTame monitor
      → IsFrame tf
      → tf.rax < 2 ^ 64
      → ((r : ℕ) → v ≡ refuse r → r < 2 ^ 64)
      → Leaves tf (after_check pl h monitor tf v s)
  unfolding after_check syscall_allow
  after-Leaves none tf (refs ptr len str err) s t f lt g =
      allow-Leaves tf (syscall_allow none tf) s f (refl, omega arith)
  after-Leaves (some m) tf (refs ptr len str err) s t f lt g =
      allow-Leaves tf (syscall_allow (some m) tf) s f (t tf lt)
  after-Leaves monitor tf (refuse r) s t f lt g = (refl, g r refl)
  after-Leaves monitor tf abort s t f lt g = tt

  refused-IsWord :
      (mem : Memory) (tf : Tf) (r : ℕ) → syscall_check_params pl mem tf ≡ refuse r → r < 2 ^ 64
  refused-IsWord mem tf r e = elim (syscall_check_params_refuses pl mem tf e) [
    | inl e' ↦ omega (arith, e')
    | inr (c, small, zero) ↦ omega (arith, zero)
  ]

  -- With 64-bit registers, a platform that is lawful and a kernel that answers by words, and
  -- under a monitor that changes no register but rax and puts no more than a word there: where
  -- syscall_handler returns, the frame differs from the given one in rax at most, and rax is a
  -- 64-bit word.
  pub syscall_handler-Leaves :
      (mem : Memory) (monitor : Monitor) (tf : Tf) (s : Machine)
      → IsTame monitor
      → IsFrame tf
      → tf.rax < 2 ^ 64
      → Leaves tf (syscall_handler pl h mem monitor tf s)
  unfolding syscall_handler
  syscall_handler-Leaves mem monitor tf s t f lt =
      after-Leaves monitor tf (syscall_check_params pl mem tf) s t f lt (refused-IsWord mem tf)

-- ===== src/Sthread/System/Granted/Calls.antt =====
-- What the system call handler passes on, and what it leaves saved.
use vmpl_apps.Base.{
  ℕ, ◌≡◌, Bool, true, false, Option, none, some, ◌∷◌, ◌==◌, if◌then◌else◌, All, arith, Bool-cases,
  inl, inr, refl, sym, bit_and, bit_or,
}
use vmpl_apps.Base.Words.{low32, ◌+w◌}
use vmpl_apps.Sthread.{Result, ok, stopped, undefined, is_negative, sign_ext, prot_read, prot_write}
use vmpl_apps.Sthread.Perms.{Sc, sc_fd_add, can_do_sys}
use vmpl_apps.Sthread.Kernel.{
  World, open_file, Kernel, K, Regs, Sthread, Outcome, ret, stop, undef, pure, recycle,
  has_mem_perm,
}
use vmpl_apps.Sthread.Handler.{
  Exit, back, leave, next_running, run_thread, run_next, schedule, do_exit, do_read, do_other,
  do_open, fd_granted, passthrough_syscall, special, after_mem_perm, memory_checked, set_ptr,
}
use vmpl_apps.Sthread.System.Granted.Threads.{
  IsGranted, IsAuthorised, IsSaved, AllBut, All-AllBut, AllBut-put, All-put_exception,
  next_running-IsSaved,
}

-- What holds of a result, if there is one.
abbrev pub Holds {ℓ} : {A : Type ℓ} → (A → Kernel → Type 0) → Outcome A → Type 0
Holds Q (ret a k) = Q a k
Holds Q (stop k) = Unit
Holds Q (undef k) = Unit

pub bind-Holds {ℓ κ} :
    {A : Type ℓ} {B : Type κ} (P : A → Kernel → Type 0) (Q : B → Kernel → Type 0) (o : Outcome A)
    (f : A → K B)
    → Holds P o
    → ((a : A) (k' : Kernel) → P a k' → Holds Q (f a k'))
    → Holds Q (elim o [ ret a k' ↦ f a k' | stop k' ↦ stop k' | undef k' ↦ undef k' ])
bind-Holds P Q (ret a k') f h g = g a k' h
bind-Holds P Q (stop k') f h g = tt
bind-Holds P Q (undef k') f h g = tt

pub always-Holds {ℓ} : {A : Type ℓ} (o : Outcome A) → Holds (λ a k. Unit {0}) o
always-Holds (ret a k) = tt
always-Holds (stop k) = tt
always-Holds (undef k) = tt

-- What holds of a result that is known.
pub holds_of {ℓ} :
    {A : Type ℓ} (Q : A → Kernel → Type 0) (o : Outcome A) {a : A} {k : Kernel}
    → Holds Q o
    → o ≡ ret a k
    → Q a k
holds_of Q o {a} {k} h e = rw e at h

Holds-if :
    (Q : Exit → Kernel → Type 0) (c : Bool) (a b : K Exit) (k : Kernel)
    → Holds Q (a k)
    → Holds Q (b k)
    → Holds Q ((if c then a else b) k)
Holds-if Q true a b k x y = x
Holds-if Q false a b k x y = y

module _ (w : World) where
  abbrev pub IsLogged : Kernel → Type 0
  IsLogged k = All (IsAuthorised w) k.log

  -- Where a run ends, no frame is left out; else that of the current compartment is.
  abbrev pub Post : Exit → Kernel → Type 0
  Post (leave status) k = IsLogged k × All (IsSaved w) k.ks_sthreads
  Post _ k = IsLogged k × AllBut w k.ks_current k.ks_sthreads

  run_thread-Post :
      (s : Sthread) (k : Kernel)
      → IsLogged k
      → All (IsSaved w) k.ks_sthreads
      → IsGranted w s.st_sc s.st_tf
      → Holds Post (run_thread w s k)
  unfolding run_thread
  run_thread-Post s k auth saved g =
      ((g, auth), AllBut-put w _ _ (All-AllBut w s.self k.ks_sthreads saved))

  run_next-Post :
      (tf : Bool) (k : Kernel) (o : Option Sthread)
      → IsLogged k
      → All (IsSaved w) k.ks_sthreads
      → ((s : Sthread) → o ≡ some s → IsGranted w s.st_sc s.st_tf)
      → Holds Post (run_next w tf o k)
  unfolding run_next
  run_next-Post true k none auth saved g = (auth, saved)
  run_next-Post false k none auth saved g = tt
  run_next-Post tf k (some s) auth saved g = run_thread-Post s k auth saved (g s refl)

  pub schedule-Post :
      (tf : Bool) (k : Kernel)
      → IsLogged k
      → All (IsSaved w) k.ks_sthreads
      → Holds Post (schedule w tf k)
  unfolding schedule
  schedule-Post tf k auth saved =
      run_next-Post tf k (next_running k.ks_current k.ks_sthreads) auth saved
        (λ s e. next_running-IsSaved w k.ks_current k.ks_sthreads s saved e)

  module _ (s : Sthread) (k : Kernel) (auth : IsLogged k) (saved : AllBut w s.self k.ks_sthreads)
      (cur : s.self ≡ k.ks_current) where
    do_exit-Post : (tf : Regs) → Holds Post (do_exit w s tf k)
    unfolding do_exit recycle
    do_exit-Post tf = (auth, All-put_exception w _ _ (λ z. cc) (AllBut-put w _ _ saved))

    do_read-Post : (tf : Regs) → IsGranted w s.st_sc tf → Holds Post (do_read w s tf k)
    unfolding do_read
    do_read-Post tf g = schedule-Post true _ auth (All-put_exception w _ _ (λ _. g) saved)

    do_other-Post : (tf : Regs) → IsGranted w s.st_sc tf → Holds Post (do_other w s tf k)
    unfolding do_other passthrough_syscall
    do_other-Post tf g = ((g, auth), rw (sym cur) saved)

    fd_granted-Post :
        (tf : Regs) (r : Result Sc) (k' : Kernel)
        → k'.ks_sthreads ≡ k.ks_sthreads
        → k'.ks_current ≡ k.ks_current
        → IsLogged k'
        → Holds Post (fd_granted w s tf r k')
    unfolding fd_granted
    fd_granted-Post tf (ok sc) k' same same_cur log =
        (log, rw (same_cur, same, sym cur) (AllBut-put w _ _ saved))
    fd_granted-Post tf stopped k' same same_cur log = tt
    fd_granted-Post tf undefined k' same same_cur log = tt

    do_open-Post : (tf : Regs) → can_do_sys s.st_sc 2 ≡ ok true → Holds Post (do_open w s tf k)
    unfolding do_open
    do_open-Post tf g =
        let rc = low32 (w.open_result k.log) in
        let tf' = record tf { rax = sign_ext rc } in
        let k' = record k { log = open_file s.st_sc tf.rdi tf.rsi tf.rdx tf.arg3 ∷ k.log } in
        let r = sc_fd_add rc (bit_or prot_read prot_write) s.st_sc in
        Holds-if Post (is_negative rc) (pure (back tf')) (fd_granted w s tf' r) k'
          ((g, auth), rw (sym cur) saved) (fd_granted-Post tf' r k' refl refl (g, auth))

    special-Post :
        (num : ℕ) (tf : Regs)
        → num ≡ low32 tf.rax
        → IsGranted w s.st_sc tf
        → Holds Post (special w num s tf k)
    unfolding special
    special-Post num tf n g = elim (Bool-cases (num == 666)) [
      | inl e ↦ rw e (do_exit-Post tf)
      | inr e ↦ rw e (elim (Bool-cases (num == 0)) [
        | inl e' ↦ rw e' (do_read-Post tf g)
        | inr e' ↦ rw e' (elim (Bool-cases (num == 2)) [
          | inl e'' ↦
              rw e'' (do_open-Post tf (let two : low32 tf.rax ≡ 2 = ground arith in rw two at g.0))
          | inr e'' ↦ rw e'' (do_other-Post tf g)
        ])
      ])
    ]

  module _ (s : Sthread) (num : ℕ) (tf : Regs) (n : num ≡ low32 tf.rax) where
    set_ptr-IsGranted :
        (v : ℕ)
        → IsGranted w s.st_sc tf
        → (num ≡ low32 (set_ptr w num v tf).rax) × IsGranted w s.st_sc (set_ptr w num v tf)
    unfolding set_ptr
    set_ptr-IsGranted v g = elim (Bool-cases (num == 2)) [
      | inl e ↦ rw e (
          let two : low32 tf.rax ≡ 2 = ground arith in
          (
            n,
            (
              g.0,
              ((λ z. absurd (omega arith)), (λ z. absurd (omega arith)), λ z. absurd (omega arith)),
            ),
          ))
      | inr e ↦ rw e (n, g)
    ]

module _ (w : World) (num : ℕ) (tf : Regs) (n : num ≡ low32 tf.rax) where
  after_mem_perm-Post :
      (s : Sthread) (ptr : ℕ) (fine : Bool) (k : Kernel)
      → IsGranted w s.st_sc tf
      → IsLogged w k
      → AllBut w s.self k.ks_sthreads
      → s.self ≡ k.ks_current
      → Holds (Post w) (after_mem_perm w num ptr tf (fine, s) k)
  unfolding after_mem_perm
  after_mem_perm-Post s ptr true k g auth saved cur =
      let (n', g') = set_ptr-IsGranted w s num tf n (s.st_walk +w bit_and ptr 0xfff) g in
      special-Post w s k auth saved cur num _ n' g'
  after_mem_perm-Post s ptr false k g auth saved cur = (auth, rw (sym cur) saved)

  module _ (s : Sthread) (k : Kernel) (auth : IsLogged w k) (saved : AllBut w s.self k.ks_sthreads)
      (cur : s.self ≡ k.ks_current) (g : IsGranted w s.st_sc tf) where
    pub memory_checked-Post : (m : Option (ℕ × ℕ)) → Holds (Post w) (memory_checked w num s tf m k)
    unfolding memory_checked has_mem_perm
    memory_checked-Post none = special-Post w s k auth saved cur num tf n g
    memory_checked-Post (some (ptr, len)) = elim (Bool-cases (s.st_walk == 0)) [
      | inl e ↦ rw e tt
      | inr e ↦ rw e (after_mem_perm-Post _ ptr _ _ g auth (AllBut-put w _ _ saved) cur)
    ]

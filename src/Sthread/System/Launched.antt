-- ===== src/Sthread/System/Launched.antt =====
-- The compartment that a call of sthread_create starts.
use vmpl_apps.Base.{
  ℕ, zero, suc, true, ◌⊎◌, sym, ◌+◌, ◌≡◌, ◌-◌, Option, none, some, List, [], ◌∷◌, refl, ◌==◌, ◌&&◌,
  Bool-cases, inl, inr, arith,
}
use mathlib.Core.Path.{subst}
use vmpl_apps.Base.Words.{low32, ◌+w◌}
use vmpl_apps.Sthread.{stack_size, is_negative, sign_ext}
use vmpl_apps.Sthread.Perms.{Sc}
use vmpl_apps.Sthread.Kernel.{
  World, Kernel, Sthread, Outcome, stop, undef, StState, running, zombie, dead, thread_at,
  put_thread, kmalloc, ret,
}
use vmpl_apps.Sthread.Handler.{Exit, jump}
use vmpl_apps.Sthread.Master.{
  mmap_or_die, create_new_sthread, build_space, is_dead, same_words, sthread_create, create_from,
  launch_sthread, launched, recyclable,
}
use vmpl_apps.Sthread.System.Granted.Calls.{Holds, holds_of, bind-Holds, always-Holds}

-- Some compartment lies at an address.
abbrev HasThread : ℕ → List Sthread → Type 0
HasThread p l = (t : Sthread) × (thread_at p l ≡ some t)

thread_at-put_thread :
    (s : Sthread) (l : List Sthread)
    → HasThread s.self l
    → thread_at s.self (put_thread s l) ≡ some s
unfolding thread_at put_thread
thread_at-put_thread s [] h = ground (arith, h.1)
thread_at-put_thread s (t ∷ next) h = elim (Bool-cases (t.self == s.self)) [
  | inl e ↦ rw e (ground arith)
  | inr e ↦ rw (e, e) (thread_at-put_thread s next (h.0, rw e at h.1))
]

here-HasThread : (t : Sthread) (l : List Sthread) → HasThread t.self (t ∷ l)
unfolding thread_at
here-HasThread t l = (t, ground arith)

cons-HasThread : (p : ℕ) (t : Sthread) (l : List Sthread) → HasThread p l → HasThread p (t ∷ l)
unfolding thread_at
cons-HasThread p t l h = elim (Bool-cases (t.self == p)) [
  | inl e ↦ (t, rw e refl)
  | inr e ↦ (h.0, rw e h.1)
]

abbrev pub nth : List Sthread → ℕ → Option Sthread
nth [] i = none
nth (s ∷ l) zero = some s
nth (s ∷ l) (suc i) = nth l i

-- A dead compartment of the list, whose page tables were made for the same tags.
abbrev pub IsReusable : List ℕ → List Sthread → Sthread → Type 0
IsReusable sc_mem l s =
    (i : ℕ) × (nth l i ≡ some s) × (s.st_state ≡ dead) × (s.st_sc.sc_mem ≡ sc_mem)

module _ (w : World) where
  is_dead_lem : (st : StState) → is_dead w st ≡ true → st ≡ dead
  unfolding is_dead
  is_dead_lem running e = absurd cc
  is_dead_lem zombie e = absurd cc
  is_dead_lem dead e = refl

  same_words_lem : (xs ys : List ℕ) → same_words w xs ys ≡ true → ys ≡ xs
  unfolding same_words
  same_words_lem [] [] e = refl
  same_words_lem [] (y ∷ ys) e = absurd cc
  same_words_lem (x ∷ xs) [] e = absurd cc
  same_words_lem (x ∷ xs) (y ∷ ys) e = ground (arith, same_words_lem xs ys)

  recyclable-IsReusable :
      (sc : Sc) (l : List Sthread) {s : Sthread}
      → recyclable w sc l ≡ some s
      → IsReusable sc.sc_mem l s
  unfolding recyclable
  recyclable-IsReusable sc [] e = absurd cc
  recyclable-IsReusable sc (t ∷ next) {s = s} e =
      elim (Bool-cases (is_dead w t.st_state && same_words w sc.sc_mem t.st_sc.sc_mem)) [
        | inl c ↦
            let same : some t ≡ some s = rw c at e in
            let at_dead : is_dead w t.st_state ≡ true = ground arith in
            let tags : same_words w sc.sc_mem t.st_sc.sc_mem ≡ true = ground arith in
            let here : t ≡ s = cc in
            rw (← here) (
              0,
              refl,
              is_dead_lem t.st_state at_dead,
              same_words_lem sc.sc_mem t.st_sc.sc_mem tags,
            )
        | inr c ↦
            let (i, found, at_dead, tags) = recyclable-IsReusable sc next (rw c at e) in
            (suc i, found, at_dead, tags)
      ]

  -- Where the compartment comes from: a dead one with the same tags is taken again with the new
  -- rights, and is otherwise as it was, or a new one is made for them.
  abbrev pub Origin : Kernel → Sc → Sthread → Type 0
  Origin k sc t =
      ((s : Sthread) × IsReusable sc.sc_mem k.ks_sthreads s
        × (t ≡ record s { st_sc = sc; st_state = running }))
      ⊎ ((s : Sthread) × (k' : Kernel) × (create_new_sthread w sc k ≡ ret s k')
          × (t ≡ record s { st_state = running }))

  with_result :
      {A : Type 0} (Q : A → Kernel → Type 0) (o : Outcome A)
      → Holds Q o
      → Holds (λ a k. Q a k × (o ≡ ret a k)) o
  with_result Q (ret a k) h = (h, refl)
  with_result Q (stop k) h = tt
  with_result Q (undef k) h = tt

  recyclable-HasThread :
      (sc : Sc) (l : List Sthread) {s : Sthread} → recyclable w sc l ≡ some s → HasThread s.self l
  unfolding recyclable
  recyclable-HasThread sc [] e = ground arith
  recyclable-HasThread sc (t ∷ next) {s = s} e =
      elim (Bool-cases (is_dead w t.st_state && same_words w sc.sc_mem t.st_sc.sc_mem)) [
        | inl c ↦
            let same : t.self ≡ s.self = ground (arith, rw c at e) in
            rw (← same) (here-HasThread t next)
        | inr c ↦ cons-HasThread s.self t next (recyclable-HasThread sc next (rw c at e))
      ]

  -- The current compartment is `id`, with the rights `sc`, and runs from its trampoline.
  abbrev pub IsLaunched : Kernel → (sc : Sc) (cb arg : ℕ) → ℕ × Exit → Kernel → Type 0
  IsLaunched k0 sc cb arg (id, e) k =
      (t : Sthread) × (thread_at k.ks_current k.ks_sthreads ≡ some t)
      × (t.st_sc ≡ sc)
      × Origin k0 sc t
      × (t.st_id ≡ id)
      × (t.st_state ≡ running)
      × (k.cr3 ≡ t.st_pgroot)
      × (e
          ≡ jump (record {
            rax = 0;
            rdi = cb;
            rsi = arg;
            rdx = 0;
            arg3 = 0;
            rip = w.trampoline;
            rsp = t.st_stack +w (stack_size - 8);
            eflags = 2;
          }))

  launched-lem :
      (k0 : Kernel) (s : Sthread) (cb arg : ℕ) (k : Kernel)
      → Origin k0 s.st_sc (record s { st_state = running })
      → HasThread s.self k.ks_sthreads
      → Holds (IsLaunched k0 s.st_sc cb arg) (launched w s cb arg k)
  unfolding launched launch_sthread
  launched-lem k0 s cb arg k o h =
      let s' = record s { st_state = running } in
      (s', thread_at-put_thread s' k.ks_sthreads h, refl, o, refl, refl, refl, refl)

  -- A compartment that has been made is in the list.
  create_new_sthread-Holds :
      (sc : Sc) (k : Kernel)
      → Holds (λ s k'. HasThread s.self k'.ks_sthreads × (s.st_sc ≡ sc)) (create_new_sthread w sc k)
  unfolding create_new_sthread build_space
  create_new_sthread-Holds sc k =
      let Q : Sthread → Kernel → Type 0 =
        λ s k'. HasThread s.self k'.ks_sthreads × (s.st_sc ≡ sc) in
      bind-Holds (λ a k'. Unit) Q (kmalloc w w.sizeof_sthread k) _
        (always-Holds (kmalloc w w.sizeof_sthread k))
        (λ self k1 u1. elim (Bool-cases (is_negative (low32 (k1.sthread_id + 1)))) [
          | inl e ↦ rw e tt
          | inr e ↦ rw e (
              bind-Holds (λ a k'. Unit) Q (mmap_or_die w stack_size _) _ (always-Holds _)
                (λ stack k2 u2.
                  bind-Holds (λ a k'. Unit) Q (mmap_or_die w (sign_ext k1.checkpointed_size) k2) _
                    (always-Holds _) (λ writable k3 u3. (here-HasThread _ _, refl))))
        ])

  create_from-Holds :
      (o : Option Sthread) (sc : Sc) (cb arg : ℕ) (k : Kernel)
      → ((s : Sthread)
          → o ≡ some s
          → HasThread s.self k.ks_sthreads × IsReusable sc.sc_mem k.ks_sthreads s)
      → Holds (IsLaunched k sc cb arg) (create_from w o sc cb arg k)
  unfolding create_from
  create_from-Holds (some s) sc cb arg k h =
      let (found, reusable) = h s refl in
      launched-lem k (record s { st_sc = sc }) cb arg k (inl (s, reusable, refl)) found
  create_from-Holds none sc cb arg k h =
      let Q : Sthread → Kernel → Type 0 =
        λ s k'. HasThread s.self k'.ks_sthreads × (s.st_sc ≡ sc) in
      bind-Holds (λ s k'. Q s k' × (create_new_sthread w sc k ≡ ret s k')) (IsLaunched k sc cb arg)
        (create_new_sthread w sc k) _
        (with_result Q (create_new_sthread w sc k) (create_new_sthread-Holds sc k))
        (λ s k' p.
          subst (λ c. Holds (IsLaunched k c cb arg) (launched w s cb arg k')) p.0.1
            (launched-lem k s cb arg k'
              (inr (s, k', subst (λ c. create_new_sthread w c k ≡ ret s k') (sym p.0.1) p.1, refl))
              p.0.0))

  -- Where sthread_create launches a compartment: it is new, made by create_new_sthread for
  -- `sc`, or it was in the list, dead and with the same tags, and is taken again with nothing
  -- changed but its rights and its state; the current compartment is that of the identifier
  -- that was returned, is running, has exactly the rights of `sc`, has its page tables loaded,
  -- and starts at the trampoline on its stack with the callback and its argument.
  pub sthread_create-IsLaunched :
      (sc : Sc) (cb arg id : ℕ) (e : Exit) (k k' : Kernel)
      → sthread_create w sc cb arg k ≡ ret (id, e) k'
      → IsLaunched k sc cb arg (id, e) k'
  unfolding sthread_create
  sthread_create-IsLaunched sc cb arg id e k k' runs =
      holds_of (IsLaunched k sc cb arg) (sthread_create w sc cb arg k)
        (create_from-Holds (recyclable w sc k.ks_sthreads) sc cb arg k (λ s found. (
          recyclable-HasThread sc k.ks_sthreads found,
          recyclable-IsReusable sc k.ks_sthreads found,
        )))
        runs

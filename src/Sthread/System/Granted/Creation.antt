-- ===== src/Sthread/System/Granted/Creation.antt =====
-- What the main program does to the frames that are saved.
use vmpl_apps.Base.{ℕ, ◌+◌, false, Option, none, some, ◌∷◌, refl, All, Bool-cases, inl, inr, ◌==◌}
use vmpl_apps.Base.Words.{low32}
use vmpl_apps.Sthread.{tag_size, stack_size, is_negative, sign_ext}
use vmpl_apps.Sthread.Checkpoint.{map_failed}
use vmpl_apps.Sthread.Tags.{smalloc}
use vmpl_apps.Sthread.Perms.{Sc}
use vmpl_apps.Sthread.Kernel.{
  World, Kernel, Sthread, K, malloc, kmalloc, tag_new, first_tag, or_die,
}
use vmpl_apps.Sthread.Handler.{Exit, schedule}
use vmpl_apps.Sthread.Master.{
  Joined, waits, mmap_or_die, create_new_sthread, sthread_create, sthread_join, join_found,
  create_from, launched, is_zombie, recyclable, find_id,
}
use vmpl_apps.Sthread.System.Granted.Threads.{IsSaved, AllBut, All-AllBut, AllBut-put, All-put}
use vmpl_apps.Sthread.System.Granted.Calls.{Holds, bind-Holds, Post, IsLogged, schedule-Post}

module _ (w : World) where
  -- In the main program no frame is left out.
  abbrev pub IsMain : Kernel → Type 0
  IsMain k = IsLogged w k × All (IsSaved w) k.ks_sthreads

  -- A function that keeps this.
  abbrev Keeps {ℓ} : {A : Type ℓ} → K A → Type 0
  Keeps m = (k : Kernel) → IsMain k → Holds (λ a k'. IsMain k') (m k)

  tag_new-Keeps : Keeps (tag_new w)
  unfolding tag_new
  tag_new-Keeps k i = elim (Bool-cases (w.malloc_fails k.log)) [
    | inl e ↦ rw e tt
    | inr e ↦ rw e (elim (Bool-cases (w.mmap_anon (malloc ∷ k.log) tag_size == map_failed)) [
      | inl e' ↦ rw e' tt
      | inr e' ↦ rw e' ((tt, (tt, i.0)), i.1)
    ])
  ]

  first_tag-Keeps : (o : Option ℕ) → Keeps (first_tag w o)
  unfolding first_tag
  first_tag-Keeps (some tag) k i = i
  first_tag-Keeps none k i =
      bind-Holds (λ a k'. IsMain k') (λ a k'. IsMain k') (tag_new w k) _ (tag_new-Keeps k i)
        (λ a k' i'. i')

  or_die-Keeps : (o : Option ℕ) → Keeps (or_die w o)
  unfolding or_die
  or_die-Keeps none k i = tt
  or_die-Keeps (some p) k i = i

  kmalloc-Keeps : (sz : ℕ) → Keeps (kmalloc w sz)
  unfolding kmalloc
  kmalloc-Keeps sz k i =
      bind-Holds (λ a k'. IsMain k') (λ a k'. IsMain k') (first_tag w k.kernel_tag k) _
        (first_tag-Keeps k.kernel_tag k i)
        (λ tag k' i'. or_die-Keeps (smalloc k'.tags tag sz).0 _ i')

  mmap_or_die-Keeps : (len : ℕ) → Keeps (mmap_or_die w len)
  unfolding mmap_or_die
  mmap_or_die-Keeps len k i = elim (Bool-cases (w.mmap_anon k.log len == map_failed)) [
    | inl e ↦ rw e tt
    | inr e ↦ rw e ((tt, i.0), i.1)
  ]

  -- The new compartment is the one that is left out.
  abbrev FirstOut : Sthread → Kernel → Type 0
  FirstOut s k = IsLogged w k × AllBut w s.self k.ks_sthreads

  create_new_sthread-lem :
      (sc : Sc) (k : Kernel) → IsMain k → Holds FirstOut (create_new_sthread w sc k)
  unfolding create_new_sthread
  create_new_sthread-lem sc k i =
      bind-Holds (λ a k'. IsMain k') FirstOut (kmalloc w w.sizeof_sthread k) _
        (kmalloc-Keeps w.sizeof_sthread k i)
        (λ self k1 i1. elim (Bool-cases (is_negative (low32 (k1.sthread_id + 1)))) [
          | inl e ↦ rw e tt
          | inr e ↦ rw e (
              bind-Holds (λ a k'. IsMain k') FirstOut (mmap_or_die w stack_size _) _
                (mmap_or_die-Keeps stack_size _ i1)
                (λ stack k2 i2.
                  bind-Holds (λ a k'. IsMain k') FirstOut
                    (mmap_or_die w (sign_ext k1.checkpointed_size) k2) _
                    (mmap_or_die-Keeps (sign_ext k1.checkpointed_size) k2 i2)
                    (λ writable k3 i3. (i3.0, ((λ same. i3.1), (λ n. absurd (n refl)))))))
        ])

  launched-Post :
      (s : Sthread) (cb arg : ℕ) (k : Kernel)
      → FirstOut s k
      → Holds (λ r. Post w r.1) (launched w s cb arg k)
  unfolding launched
  launched-Post s cb arg k i = (i.0, AllBut-put w _ _ i.1)

  create_from-Post :
      (o : Option Sthread) (sc : Sc) (cb arg : ℕ) (k : Kernel)
      → IsMain k
      → Holds (λ r. Post w r.1) (create_from w o sc cb arg k)
  unfolding create_from
  create_from-Post (some s) sc cb arg k i =
      launched-Post (record s { st_sc = sc }) cb arg k (i.0, All-AllBut w s.self k.ks_sthreads i.1)
  create_from-Post none sc cb arg k i =
      bind-Holds FirstOut (λ (r : ℕ × Exit). Post w r.1) (create_new_sthread w sc k) _
        (create_new_sthread-lem sc k i) (λ s k' p. launched-Post s cb arg k' p)

  pub sthread_create-Post :
      (sc : Sc) (cb arg : ℕ) (k : Kernel)
      → IsMain k
      → Holds (λ r. Post w r.1) (sthread_create w sc cb arg k)
  unfolding sthread_create
  sthread_create-Post sc cb arg k i = create_from-Post (recyclable w sc k.ks_sthreads) sc cb arg k i

  abbrev pub JoinPost : Joined → Kernel → Type 0
  JoinPost (waits e) k = Post w e k
  JoinPost _ k = IsMain k

  join_found-Post : (o : Option Sthread) (k : Kernel) → IsMain k → Holds JoinPost (join_found w o k)
  unfolding join_found
  join_found-Post none k i = i
  join_found-Post (some s) k i = elim (Bool-cases (is_zombie s.st_state)) [
    | inl e ↦ rw e (i.0, All-put w _ _ (λ z. cc) i.1)
    | inr e ↦ rw e (
        bind-Holds (Post w) JoinPost (schedule w false k) _ (schedule-Post w false k i.0 i.1)
          (λ e' k' p. p))
  ]

  pub sthread_join-Post : (st : ℕ) (k : Kernel) → IsMain k → Holds JoinPost (sthread_join w st k)
  unfolding sthread_join
  sthread_join-Post st k i = join_found-Post (find_id st k.ks_sthreads) k i

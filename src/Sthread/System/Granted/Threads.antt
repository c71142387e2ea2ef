-- ===== src/Sthread/System/Granted/Threads.antt =====
-- The frames that are saved in the list of compartments.
use vmpl_apps.Base.{
  ℕ, ◌≡◌, ◌≢◌, Bool, true, some, List, [], ◌∷◌, ◌==◌, All, arith, Bool-cases, inl, inr, refl, ◌&&◌,
  ◌!=◌,
}
use mathlib.Core.Path.{subst}
use vmpl_apps.Base.Words.{low32}
use vmpl_apps.Sthread.{ok}
use vmpl_apps.Sthread.Perms.{Sc, can_do_sys, has_fd_perm}
use vmpl_apps.Sthread.Kernel.{
  Event, malloc, mmap, passthrough, open_file, World, Regs, Sthread, StState, running, zombie, dead,
  thread_at, put_thread,
}
use vmpl_apps.Sthread.Handler.{next_running, is_running}

-- A read (call 0) needs the right 1 to its descriptor, a write (1) and a close (3) the right 2.
abbrev pub HasRights : Sc → Regs → Type 0
HasRights sc tf =
    (low32 tf.rax ≡ 0 → has_fd_perm sc (low32 tf.rdi) 1 ≡ true)
    × (low32 tf.rax ≡ 1 → has_fd_perm sc (low32 tf.rdi) 2 ≡ true)
    × (low32 tf.rax ≡ 3 → has_fd_perm sc (low32 tf.rdi) 2 ≡ true)

-- The compartment may make the call of the frame, and has the right to its descriptor.
abbrev pub IsGranted : World → Sc → Regs → Type 0
IsGranted w sc tf = (can_do_sys sc (low32 tf.rax) ≡ ok true) × HasRights sc tf

abbrev pub IsAuthorised : World → Event → Type 0
IsAuthorised w malloc = Unit
IsAuthorised w (mmap len) = Unit
IsAuthorised w (passthrough sc tf) = IsGranted w sc tf
IsAuthorised w (open_file sc path flags mode mode') = can_do_sys sc 2 ≡ ok true

module _ (w : World) where
  abbrev pub IsSaved : Sthread → Type 0
  IsSaved s = s.st_state ≡ running → IsGranted w s.st_sc s.st_tf

  -- All but the first at the address.
  abbrev pub AllBut : ℕ → List Sthread → Type 0
  AllBut p [] = Unit
  AllBut p (s ∷ l) = (s.self ≡ p → All IsSaved l) × (s.self ≢ p → IsSaved s × AllBut p l)

  pub All-AllBut : (p : ℕ) (l : List Sthread) → All IsSaved l → AllBut p l
  All-AllBut p [] a = tt
  All-AllBut p (s ∷ l) a = ((λ e. a.1), (λ e. (a.0, All-AllBut p l a.1)))

  pub All-put :
      (s : Sthread) (l : List Sthread) → IsSaved s → All IsSaved l → All IsSaved (put_thread s l)
  unfolding put_thread
  All-put s [] i a = tt
  All-put s (t ∷ l) i a = elim (Bool-cases (t.self == s.self)) [
    | inl e ↦ rw (e, All) (i, a.1)
    | inr e ↦ rw (e, All) (a.0, All-put s l i a.1)
  ]

  -- The exception stays the exception when it is stored, whatever is stored.
  pub AllBut-put :
      (s : Sthread) (l : List Sthread) → AllBut s.self l → AllBut s.self (put_thread s l)
  unfolding put_thread
  AllBut-put s [] a = tt
  AllBut-put s (t ∷ l) a = elim (Bool-cases (t.self == s.self)) [
    | inl e ↦ rw (e, AllBut) ((λ _. a.0 (ground arith)), (λ n. absurd (n refl)))
    | inr e ↦
        let rest = AllBut-put s l (a.1 (ground arith)).1 in
        rw (e, AllBut) ((λ same. absurd (ground arith)), (λ n. ((a.1 n).0, rest)))
  ]

  pub All-put_exception :
      (s : Sthread) (l : List Sthread) → IsSaved s → AllBut s.self l → All IsSaved (put_thread s l)
  unfolding put_thread
  All-put_exception s [] i a = tt
  All-put_exception s (t ∷ l) i a = elim (Bool-cases (t.self == s.self)) [
    | inl e ↦ rw (e, All) (i, a.0 (ground arith))
    | inr e ↦ let here = a.1 (ground arith) in rw (e, All) (here.0, All-put_exception s l i here.1)
  ]

some_injective : {a b : Sthread} → some a ≡ some b → a ≡ b
some_injective e = cc

and_right : (a b : Bool) → (a && b) ≡ true → b ≡ true
and_right a b e = ground arith

is_running-eq : (st : StState) → is_running st ≡ true → st ≡ running
is_running-eq running e = refl
is_running-eq zombie e = cc
is_running-eq dead e = cc

pub thread_at-self : (p : ℕ) (l : List Sthread) {s : Sthread} → thread_at p l ≡ some s → s.self ≡ p
unfolding thread_at
thread_at-self p [] e = cc
thread_at-self p (t ∷ l) {s = s} e = ground (arith, thread_at-self p l {s = s})

pub next_running-IsSaved :
    (w : World) (c : ℕ) (l : List Sthread) (s : Sthread)
    → All (IsSaved w) l
    → next_running c l ≡ some s
    → IsGranted w s.st_sc s.st_tf
unfolding next_running
next_running-IsSaved w c [] s a e = ground arith
next_running-IsSaved w c (t ∷ l) s a e =
    elim (Bool-cases ((t.self != c) && is_running t.st_state)) [
      | inl h ↦
          let same : t ≡ s = some_injective (rw h at e) in
          subst (λ (u : Sthread). IsGranted w u.st_sc u.st_tf) same
            (a.0 (is_running-eq t.st_state (and_right _ _ h)))
      | inr h ↦ next_running-IsSaved w c l s a.1 (rw h at e)
    ]

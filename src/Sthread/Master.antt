-- ===== src/Sthread/Master.antt =====
-- wedge/src/sthread.c: what the main program calls (sthread_init, sthread_create, sthread_join) and
-- the making of a compartment (create_new_sthread, launch_sthread).
pub mod Twice
use vmpl_apps.Base.{
  ℕ, ◌+◌, ◌-◌, ◌^◌, Bool, true, false, ◌&&◌, Option, none, some, List, [], ◌∷◌, ◌==◌, ◌!=◌,
  if◌then◌else◌,
}
use vmpl_apps.Base.Words.{◌+w◌, ◌-w◌, has_bit, low32}
use vmpl_apps.Sthread.{ok, stopped, undefined, prot_write, stack_size, is_negative, sign_ext}
use vmpl_apps.Sthread.Perms.{Sc}
use vmpl_apps.Sthread.Pages.{Segment, memcpy, walk_protect, walk_remap}
use vmpl_apps.Sthread.Checkpoint.{Libc, checkpoint_prepare, checkpoint_do, map_failed}
use vmpl_apps.Sthread.Kernel.{
  World, Sthread, Regs, Space, StState, running, zombie, dead, undef, K, pure, ◌>>=◌, ◌>>◌, die,
  get, modify, record_event, mmap, store_thread, kmalloc, set_entry, Visitor,
}
use vmpl_apps.Sthread.Handler.{Exit, jump, schedule}

abbrev zero_regs : Regs
zero_regs = record { rax = 0; rdi = 0; rsi = 0; rdx = 0; arg3 = 0; rip = 0; rsp = 0; eflags = 0 }

module _ (w : World) where
  -- An anonymous mapping. MAP_FAILED ends the process.
  unfoldable pub mmap_or_die : (len : ℕ) → K ℕ
  mmap_or_die len = do
    k ← get
    let p = w.mmap_anon k.log len
    record_event (mmap len)
    if p == map_failed then die else pure p

  protect_page : (segs : List Segment) (s : Sthread) → Visitor
  protect_page segs s va st_walk sp = (
    true,
    st_walk,
    set_entry s.st_pgroot va
        (walk_protect w.mmu segs s.st_stack s.st_sc.sc_mem va (sp.entries s.st_pgroot va)) sp,
  )

  remap_page : (s : Sthread) → Visitor
  remap_page s va st_walk sp =
      let (pte, walk) = walk_remap w.mmu s.st_writable st_walk (sp.entries s.st_pgroot va) in
      (true, walk, set_entry s.st_pgroot va pte sp)

  remap_segments : Sthread → List Segment → (st_walk : ℕ) → Space → ℕ × Space
  unfolding remap_page
  remap_segments s [] st_walk sp = (st_walk, sp)
  remap_segments s (seg ∷ next) st_walk sp =
      let walked =
        w.page_walk s.st_pgroot seg.s_start (seg.s_end -w 4096) (remap_page s) st_walk sp in
      let at : ℕ × Space =
        if has_bit seg.s_flags prot_write then (walked.1, walked.2) else (st_walk, sp) in
      remap_segments s next at.0 at.1

  -- The tables of a new compartment: a copy of the master's, then both walks.
  unfoldable pub build_space : (s : Sthread) (segs : List Segment) → Space → Sthread × Space
  unfolding protect_page remap_segments
  build_space s segs sp =
      let (root, cloned) = w.vm_clone w.pgroot sp in
      let s' = record s { st_pgroot = root } in
      let (_, _, denied) =
        w.page_walk root w.va_start w.va_end (protect_page segs s') s'.st_walk cloned in
      let (walk, remapped) = remap_segments s' segs 0 denied in
      (record s' { st_walk = walk }, remapped)

  unfoldable pub create_new_sthread : Sc → K Sthread
  unfolding mmap_or_die build_space
  create_new_sthread sc = do
    self ← kmalloc w w.sizeof_sthread
    k ← get
    let id = low32 (k.sthread_id + 1)
    modify (λ k'. record k' { sthread_id = id })
    if is_negative id then die else do
      stack ← mmap_or_die stack_size
      writable ← mmap_or_die (sign_ext k.checkpointed_size)
      k' ← get
      let copied =
          memcpy writable k'.checkpointed_mem (sign_ext k'.checkpointed_size) k'.space.bytes
      let s : Sthread = record {
        self = self;
        st_id = id;
        st_state = running;
        st_ret = 0;
        st_stack = stack;
        st_pgroot = 0;
        st_tf = zero_regs;
        st_sc = sc;
        st_writable = writable;
        st_walk = 0;
      }
      let built = build_space s k'.segments (record k'.space { bytes = copied })
      modify (λ k''. record k'' { ks_sthreads = built.0 ∷ k''.ks_sthreads; space = built.1 })
      pure built.0

  unfoldable pub launch_sthread : Sthread → (cb arg : ℕ) → K Exit
  launch_sthread s cb arg = do
    store_thread (record s { st_state = running })
    modify (λ k. record k { ks_current = s.self; cr3 = s.st_pgroot })
    pure (
        jump (record zero_regs {
          rip = w.trampoline;
          rsp = s.st_stack +w (stack_size - 8);
          eflags = 2;
          rdi = cb;
          rsi = arg;
        }))

  unfoldable pub is_dead : StState → Bool
  is_dead dead = true
  is_dead _ = false

  unfoldable pub same_words : List ℕ → List ℕ → Bool
  same_words [] [] = true
  same_words (x ∷ xs) (y ∷ ys) = (x == y) && same_words xs ys
  same_words _ _ = false

  -- The first dead compartment with the same tags.
  unfoldable pub recyclable : Sc → List Sthread → Option Sthread
  unfolding is_dead same_words
  recyclable sc [] = none
  recyclable sc (s ∷ next) =
      let rest = recyclable sc next in
      if is_dead s.st_state && same_words sc.sc_mem s.st_sc.sc_mem then some s else rest

  -- The launch, with `*st`.
  unfoldable pub launched : Sthread → (cb arg : ℕ) → K (ℕ × Exit)
  unfolding launch_sthread
  launched s cb arg = do e ← launch_sthread s cb arg; pure (s.st_id, e)

  -- The compartment that is taken again, or a fresh one.
  unfoldable pub create_from : Option Sthread → Sc → (cb arg : ℕ) → K (ℕ × Exit)
  unfolding create_new_sthread launched
  create_from (some s) sc cb arg = launched (record s { st_sc = sc }) cb arg
  create_from none sc cb arg = do s ← create_new_sthread sc; launched s cb arg

  unfoldable pub sthread_create : Sc → (cb arg : ℕ) → K (ℕ × Exit)
  unfolding recyclable create_from
  sthread_create sc cb arg = do k ← get; create_from (recyclable sc k.ks_sthreads) sc cb arg

unfoldable pub find_id : (st : ℕ) → List Sthread → Option Sthread
find_id st [] = none
find_id st (s ∷ next) = let rest = find_id st next in if s.st_id == st then some s else rest

-- What a round of sthread_join does: it has the result, it fails, or it lets others run and comes
-- back to the test.
pub data Joined : Type 0 where
  joined : (st_ret : ℕ) → Joined
  no_such : Joined
  waits : (e : Exit) → Joined

abbrev pub is_zombie : StState → Bool
is_zombie zombie = true
is_zombie _ = false

module _ (w : World) where
  unfoldable pub join_found : Option Sthread → K Joined
  join_found none = pure no_such
  join_found (some s) =
      if is_zombie s.st_state
      then (do store_thread (record s { st_state = dead }); pure (joined s.st_ret))
      else do e ← schedule w false; pure (waits e)

  unfoldable pub sthread_join : (st : ℕ) → K Joined
  unfolding join_found
  sthread_join st = do k ← get; join_found (find_id st k.ks_sthreads)

  -- 0, or -1 where dune_init_and_enter fails. The memory of `_kstate` is fresh from mmap: zero.
  pub sthread_init : Libc → K ℕ
  sthread_init libc = do
    k ← get
    elim (checkpoint_prepare libc) [
      | stopped ↦ die
      | undefined ↦ undef
      | ok (segs, size, mem) ↦ do
        modify
            (λ k'. record k' { segments = segs; checkpointed_size = size; checkpointed_mem = mem })
        if w.init_and_enter != 0 then pure (2 ^ 64 - 1) else do
          kstate ← kmalloc w w.sizeof_kstate
          modify (λ k'. record k' {
            ks_current = 0;
            ks_sthreads = [];
            space = record k'.space {
              bytes = checkpoint_do k'.segments k'.checkpointed_mem k'.space.bytes;
            };
          })
          pure 0
    ]

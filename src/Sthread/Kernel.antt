-- ===== src/Sthread/Kernel.antt =====
-- wedge/src/sthread.c: the state of the monitor, what it asks of the kernel and of libdune, and the
-- functions that only change the state (tag_new, kmalloc, recycle, has_mem_perm).
pub mod Recycled
pub mod Clean
pub mod Cleared
use vmpl_apps.Base.{ℕ, ◌+◌, Bool, true, Option, none, some, List, [], ◌∷◌, ◌==◌, if◌then◌else◌}
use vmpl_apps.Base.Words.{◌+w◌, ◌-w◌, has_bit, low32}
use vmpl_apps.Sthread.{prot_write, stack_size, tag_size}
use vmpl_apps.Sthread.Perms.{Sc}
use vmpl_apps.Sthread.Tags.{Tag, smalloc}
use vmpl_apps.Sthread.Pages.{Mmu, Segment, Bytes, walk_recycle, walk_recycle_stack, walk_check_perm}
use vmpl_apps.Sthread.Checkpoint.{map_failed}

-- The registers of `struct pt_regs` that are used. ARG0, ARG1, ARG2 are rdi, rsi, rdx.
pub record Regs : Type 0 where
  pub rax : ℕ
  pub rdi : ℕ
  pub rsi : ℕ
  pub rdx : ℕ
  pub arg3 : ℕ
  pub rip : ℕ
  pub rsp : ℕ
  pub eflags : ℕ

pub data StState : Type 0 where
  running zombie dead : StState

-- `struct sthread`; `self` is its address. `st_next` is the order of the list.
pub record Sthread : Type 0 where
  pub self : ℕ
  pub st_id : ℕ
  pub st_state : StState
  pub st_ret : ℕ
  pub st_stack : ℕ
  pub st_pgroot : ℕ
  pub st_tf : Regs
  pub st_sc : Sc
  pub st_writable : ℕ
  pub st_walk : ℕ

-- What has been done outside, newest first.
pub data Event : Type 0 where
  malloc : Event
  mmap : (len : ℕ) → Event
  passthrough : (sc : Sc) (tf : Regs) → Event
  open_file : (sc : Sc) (path flags mode mode' : ℕ) → Event

-- The page tables (the entry of an address below a root) and the bytes of memory.
pub record Space : Type 0 where
  pub entries : (root va : ℕ) → ℕ
  pub bytes : Bytes

-- The static variables of sthread.c, the root in CR3 (without its flags), and the two above.
pub record Kernel : Type 0 where
  pub sthread_id : ℕ
  pub segments : List Segment
  pub checkpointed_mem : ℕ
  pub checkpointed_size : ℕ
  pub tag_id : ℕ
  pub tags : List Tag
  pub kernel_tag : Option ℕ
  pub ks_current : ℕ
  pub ks_sthreads : List Sthread
  pub cr3 : ℕ
  pub space : Space
  pub log : List Event

-- A visit of one page: whether the walk goes on, and what it has changed. `st_walk` is carried along.
abbrev pub Visitor : Type 0
Visitor = (va st_walk : ℕ) → Space → Bool × ℕ × Space

-- The kernel, libc and libdune. `page_walk` gives whether the walk came to its end.
pub record World : Type 0 where
  pub mmu : Mmu
  pub pgroot : ℕ
  pub va_start : ℕ
  pub va_end : ℕ
  pub sizeof_sthread : ℕ
  pub sizeof_kstate : ℕ
  pub trampoline : ℕ
  pub malloc_fails : List Event → Bool
  pub mmap_anon : List Event → (len : ℕ) → ℕ
  pub strlen : Bytes → ℕ → ℕ
  pub page_walk : (root first last : ℕ) → Visitor → (st_walk : ℕ) → Space → Bool × ℕ × Space
  pub vm_clone : (root : ℕ) → Space → ℕ × Space
  pub open_result : List Event → ℕ
  pub passthrough_rax : List Event → Regs → ℕ
  pub init_and_enter : ℕ

-- A function returns, or the process ends (err, errx, a failed assert, abort), or C does not say
-- what happens.
pub data Outcome {ℓ} (A : Type ℓ) : Type ℓ where
  ret : A → Kernel → Outcome A
  stop undef : Kernel → Outcome A

abbrev pub K {ℓ} : Type ℓ → Type ℓ
K A = Kernel → Outcome A

abbrev pub pure {ℓ} : {A : Type ℓ} → A → K A
pure a k = ret a k

infixl 5 ◌>>=◌ ◌>>◌
abbrev pub ◌>>=◌ {ℓ κ} : {A : Type ℓ} {B : Type κ} → K A → (A → K B) → K B
◌>>=◌ m f k = elim (m k) [ ret a k' ↦ f a k' | stop k' ↦ stop k' | undef k' ↦ undef k' ]

abbrev pub ◌>>◌ {ℓ} : {B : Type ℓ} → K (Unit {0}) → K B → K B
m >> n = m >>= λ _. n

abbrev pub die {ℓ} : {A : Type ℓ} → K A
die k = stop k

abbrev pub get : K Kernel
get k = ret k k

abbrev pub modify : (Kernel → Kernel) → K (Unit {0})
modify f k = ret tt (f k)

abbrev pub record_event : Event → K (Unit {0})
record_event e = modify (λ k. record k { log = e ∷ k.log })

-- `struct sthread *` from an address.
unfoldable pub thread_at : (self : ℕ) → List Sthread → Option Sthread
thread_at p [] = none
thread_at p (s ∷ next) = let rest = thread_at p next in if s.self == p then some s else rest

-- A write through the pointer.
unfoldable pub put_thread : Sthread → List Sthread → List Sthread
put_thread s [] = []
put_thread s (t ∷ next) = if t.self == s.self then s ∷ next else t ∷ put_thread s next

abbrev pub store_thread : Sthread → K (Unit {0})
store_thread s = modify (λ k. record k { ks_sthreads = put_thread s k.ks_sthreads })

-- `*ptep = v`.
pub set_entry : (root va v : ℕ) → Space → Space
set_entry root va v sp = record sp {
  entries = λ r a. if r == root then if a == va then v else sp.entries r a else sp.entries r a;
}

module _ (w : World) where
  unfoldable pub tag_new : K ℕ
  tag_new = do
    k ← get
    if w.malloc_fails k.log then die else do
      record_event malloc
      k' ← get
      let buf = w.mmap_anon k'.log tag_size
      record_event (mmap tag_size)
      if buf == map_failed then die else do
        modify (λ k''. record k'' {
          tag_id = low32 (k.tag_id + 1);
          tags = record { t_id = k.tag_id; t_buf = buf; t_p = buf; t_len = tag_size } ∷ k''.tags;
        })
        pure k.tag_id

  -- The value of the static `_tag`, where -1 is `none`.
  unfoldable pub first_tag : Option ℕ → K ℕ
  unfolding tag_new
  first_tag (some tag) = pure tag
  first_tag none = do tag ← tag_new; modify (λ k. record k { kernel_tag = some tag }); pure tag

  -- A failed smalloc ends the process.
  unfoldable pub or_die : Option ℕ → K ℕ
  or_die none = die
  or_die (some p) = pure p

  unfoldable pub kmalloc : (sz : ℕ) → K ℕ
  unfolding first_tag or_die
  kmalloc sz = do
    k ← get
    tag ← first_tag k.kernel_tag
    k' ← get
    let r = smalloc k'.tags tag sz
    modify (λ k''. record k'' { tags = r.1 })
    or_die r.0

  -- walk_recycle and walk_recycle_stack on the entry of a page.
  pub recycle_page : (s : Sthread) (checkpointed_mem : ℕ) → Visitor
  recycle_page s c va st_walk sp =
      let v =
        walk_recycle w.mmu s.st_writable c
          (record { st_walk = st_walk; pte = sp.entries s.st_pgroot va; mem = sp.bytes }) in
      (true, v.st_walk, record (set_entry s.st_pgroot va v.pte sp) { bytes = v.mem })

  pub recycle_stack_page : (s : Sthread) → Visitor
  recycle_stack_page s va st_walk sp =
      let v =
        walk_recycle_stack w.mmu s.st_stack
          (record { st_walk = st_walk; pte = sp.entries s.st_pgroot va; mem = sp.bytes }) in
      (true, v.st_walk, record (set_entry s.st_pgroot va v.pte sp) { bytes = v.mem })

  pub recycle_segments :
      (s : Sthread) (checkpointed_mem : ℕ) → List Segment → (st_walk : ℕ) → Space → ℕ × Space
  unfolding recycle_page
  recycle_segments s c [] st_walk sp = (st_walk, sp)
  recycle_segments s c (seg ∷ next) st_walk sp =
      let walked =
        w.page_walk s.st_pgroot seg.s_start (seg.s_end -w 4096) (recycle_page s c) st_walk sp in
      let at : ℕ × Space =
        if has_bit seg.s_flags prot_write then (walked.1, walked.2) else (st_walk, sp) in
      recycle_segments s c next at.0 at.1

  -- The thread with its `st_walk`.
  unfoldable pub recycle : Sthread → K Sthread
  unfolding recycle_segments recycle_stack_page
  recycle s = do
    k ← get
    let (_, sp) = recycle_segments s k.checkpointed_mem k.segments 0 k.space
    let (_, walk, sp') =
        w.page_walk s.st_pgroot s.st_stack (s.st_stack +w stack_size -w 4096) (recycle_stack_page s)
          0 sp
    let s' = record s { st_walk = walk }
    modify (λ k'. record k' { space = sp' })
    store_thread s'
    pure s'

  check_page : (s : Sthread) → Visitor
  check_page s va st_walk sp =
      let (more, walk) = walk_check_perm w.mmu st_walk (sp.entries s.st_pgroot va) in
      (more, walk, sp)

  -- The result, and the thread with its `st_walk`.
  unfoldable pub has_mem_perm : (s : Sthread) (ptr len : ℕ) → K (Bool × Sthread)
  unfolding check_page
  has_mem_perm s ptr len = do
    k ← get
    let (done, walk, sp) = w.page_walk s.st_pgroot ptr (ptr +w len) (check_page s) 0 k.space
    let s' = record s { st_walk = walk }
    modify (λ k'. record k' { space = sp })
    store_thread s'
    pure (done, s')

-- ===== src/Host.antt =====
-- What the sandbox asks of the kernel and of libdune. Each call is recorded in a log, newest first,
-- and the environment answers a call as a function of the log before it, so that a theorem over all
-- hosts holds whatever the kernel does. The code of the kernel and of libdune is not modelled.
pub mod Stays
pub mod Mutex
pub mod Replies
use vmpl_apps.Base.{ℕ, ◌-◌, ◌%◌, Bool, List, ◌∷◌, ◌≡◌, ◌<◌}
use vmpl_apps.Base.Words.{neg}

-- Constants and macros of libdune (vmpl/dune.h), and whether the build defines DUNE.
pub record Platform : Type 0 where
  pub dune_defined : Bool
  pub mmap_base : ℕ
  pub pgsize : ℕ
  pub big_pgsize : ℕ
  pub pgaddr : ℕ → ℕ
  pub pgoff : ℕ → ℕ
  pub big_pgaddr : ℕ → ℕ
  pub big_pgoff : ℕ → ℕ
  pub perm_u : ℕ
  pub perm_r : ℕ
  pub perm_w : ℕ
  pub perm_x : ℕ
  pub perm_big : ℕ
  pub pte_p : ℕ
  pub pte_w : ℕ
  pub pte_addr : ℕ → ℕ

-- Pages have 4 KiB and big pages 2 MiB; PGADDR and PGOFF split an address at a page boundary; the
-- mapping window starts at a big page, above the low addresses, and ends below 2 ^ 47.
pub record IsPlatform (pl : Platform) : Type 0 where
  pub pgsize_lem : pl.pgsize ≡ 4096
  pub big_pgsize_lem : pl.big_pgsize ≡ 2097152
  pub pgoff_lem : (x : ℕ) → pl.pgoff x ≡ x % 4096
  pub pgaddr_lem : (x : ℕ) → pl.pgaddr x ≡ x - x % 4096
  pub big_pgoff_lem : (x : ℕ) → pl.big_pgoff x ≡ x % 2097152
  pub big_pgaddr_lem : (x : ℕ) → pl.big_pgaddr x ≡ x - x % 2097152
  pub base_aligned : pl.mmap_base % 2097152 ≡ 0
  pub base_high : 0x200000000 < pl.mmap_base
  pub base_low : pl.mmap_base < 0x7ffe00000000

-- An entry of an argument vector: one of the two fixed paths of exec.c, a pointer of the
-- application, a position in the page that was read, the null pointer.
pub data Arg : Type 0 where
  sandbox_path ld_path : Arg
  pointer : (ptr : ℕ) → Arg
  in_page : (i : ℕ) → Arg
  null : Arg

pub data Call : Type 0 where
  mmap : (addr len prot flags fd offset : ℕ) → Call
  munmap : (addr len : ℕ) → Call
  mprotect : (addr len prot : ℕ) → Call
  mremap : (old_address old_size new_size flags new_address : ℕ) → Call
  shmctl_stat : (shmid : ℕ) → Call
  shmat : (shmid addr shmflg : ℕ) → Call
  shmdt : (addr : ℕ) → Call
  vm_map_phys : (addr len pa perm : ℕ) → Call
  vm_unmap : (addr len : ℕ) → Call
  vm_mprotect : (addr len perm : ℕ) → Call
  lock unlock : Call
  store : (addr value : ℕ) → Call
  get_user_fs : Call
  set_user_fs : (fs : ℕ) → Call
  clone : (flags stack parent_tid child_tid tls : ℕ) → Call
  enter gettid : Call
  cond_init mutex_init pthread_create cond_wait cond_signal mutex_destroy cond_destroy : Call
  arg_lock arg_unlock : Call
  publish_tid : (tid : ℕ) → Call
  set_tid_address : (ptr : ℕ) → Call
  jump_to_user : (rip rsp rax : ℕ) → Call
  sys_exit : (status : ℕ) → Call
  register_pgflt register_syscall : Call
  init : Call
  elf_open elf_close : Call
  elf_load_ph : (vaddr off : ℕ) → Call
  open_rdonly : (filename : ℕ) → Call
  read_page : (fd len : ℕ) → Call
  close : (fd : ℕ) → Call
  fork : Call
  execve : (argv : List Arg) (page : ℕ → ℕ) (envp : ℕ) → Call
  ret_from_user : (status : ℕ) → Call
  passthrough : (sysno arg0 arg1 arg2 arg3 arg4 arg5 : ℕ) → Call
  vm_lookup : (addr : ℕ) → Call
  set_pte : (addr value : ℕ) → Call

-- `errno` is the error number after the newest call of a log; `shm_segsz` the size that a successful
-- `shmctl` reports; `page_bytes` what the last `read` left in the page, the bytes that it did not
-- write included; `ta_tid` the thread
-- identifier that the child has published; `array_at` the pointers of a null-terminated array of the application.
pub record Host : Type 0 where
  pub reply : List Call → Call → ℕ
  pub errno : List Call → ℕ
  pub shm_segsz : List Call → ℕ
  pub va_to_pa : ℕ → ℕ
  pub page_bytes : List Call → ℕ → ℕ
  pub ta_tid : List Call → ℕ
  pub array_at : List Call → ℕ → List ℕ

-- The static variables of umm.c and the log.
pub record Machine : Type 0 where
  pub brk_len : ℕ
  pub mmap_len : ℕ
  pub log : List Call

-- A function of the sandbox returns, or the process ends (`exit`, a failed `assert`). An access behind
-- the page of exec.c, of which C does not say what it does, is taken for an end too.
pub data Outcome {ℓ} (A : Type ℓ) : Type ℓ where
  ret : A → Machine → Outcome A
  dead : Machine → Outcome A

abbrev pub M {ℓ} : Type ℓ → Type ℓ
M A = Machine → Outcome A

abbrev pub pure {ℓ} : {A : Type ℓ} → A → M A
pure a s = ret a s

abbrev pub exit {ℓ} : {A : Type ℓ} → M A
exit s = dead s

infixl 5 ◌>>=◌ ◌>>◌
abbrev pub ◌>>=◌ {ℓ κ} : {A : Type ℓ} {B : Type κ} → M A → (A → M B) → M B
◌>>=◌ m f s = elim (m s) [ ret a s' ↦ f a s' | dead s' ↦ dead s' ]

abbrev pub ◌>>◌ {ℓ} : {B : Type ℓ} → M (Unit {0}) → M B → M B
m >> k = m >>= λ _. k

abbrev pub machine_of {ℓ} : {A : Type ℓ} → Outcome A → Machine
machine_of (ret a s) = s
machine_of (dead s) = s

module _ (h : Host) where
  -- One call, with its answer.
  abbrev pub ask : Call → M ℕ
  ask c s = ret (h.reply s.log c) (record s { log = c ∷ s.log })

  abbrev pub tell : Call → M (Unit {0})
  tell c s = ret tt (record s { log = c ∷ s.log })

  -- `-errno`, sign-extended to a word.
  abbrev pub neg_errno : M ℕ
  neg_errno s = ret (neg (h.errno s.log)) s

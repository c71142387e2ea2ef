-- ===== src/Loader.antt =====
-- sandbox/src/main.c: loading a program and its auxiliary vector, and of trap.c and sandbox.h the
-- start of the handlers (trap_init) and get_err. Start has setup_arguments and boxer_main.
pub mod Segments
pub mod Aux
pub mod Start
pub mod Samples
mod Tests
use vmpl_apps.Base.{
  ℕ, ◌+◌, ◌-◌, ◌%◌, ◌^◌, Bool, true, false, ◌&&◌, ◌||◌, Option, none, some, List, [], ◌∷◌, bit_or,
  ltb, leb, ◌==◌, ◌!=◌, if◌then◌else◌,
}
use vmpl_apps.Base.Words.{◌+w◌, ◌-w◌, neg, has_bit}
use vmpl_apps.Base.Linux.{einval}
use vmpl_apps.Host.{
  Platform, Host, M, pure, ◌>>=◌, ◌>>◌, ask, tell, neg_errno, mutex_init, register_pgflt,
  register_syscall, elf_open, elf_close, elf_load_ph, vm_map_phys, vm_mprotect, jump_to_user,
}
use vmpl_apps.Mem.{app_max_elf_vaddr, loader_vaddr_off}

-- The fields of <elf.h> that main.c reads.
pub record Phdr : Type 0 where
  pub p_type : ℕ
  pub p_flags : ℕ
  pub p_vaddr : ℕ
  pub p_filesz : ℕ
  pub p_memsz : ℕ

pub record Ehdr : Type 0 where
  pub e_type : ℕ
  pub e_entry : ℕ
  pub e_phoff : ℕ
  pub e_phnum : ℕ

abbrev pub pt_load : ℕ
pt_load = 1

abbrev pt_interp : ℕ
pt_interp = 3

abbrev pub et_exec : ℕ
et_exec = 2

abbrev pub et_dyn : ℕ
et_dyn = 3

abbrev pf_x : ℕ
pf_x = 1

abbrev pf_w : ℕ
pf_w = 2

abbrev pf_r : ℕ
pf_r = 4

-- `struct elf_data`.
pub record ElfData : Type 0 where
  pub entry : ℕ
  pub phdr : ℕ
  pub phnum : ℕ

perm_bit : (flags flag perm acc : ℕ) → ℕ
perm_bit flags flag perm acc = if has_bit flags flag then bit_or acc perm else acc

pub segment_off : (e_type : ℕ) → ℕ
segment_off e_type = if e_type == et_dyn then loader_vaddr_off else 0

module _ (pl : Platform) (h : Host) where
  -- A segment that has passed the test of its address.
  load_segment : (off : ℕ) → Phdr → M ℕ
  load_segment off phdr =
      let va = phdr.p_vaddr +w off in
      let perm =
        perm_bit phdr.p_flags pf_w pl.perm_w
          (perm_bit phdr.p_flags pf_r pl.perm_r (perm_bit phdr.p_flags pf_x pl.perm_x pl.perm_u)) in
      do
        r ← ask h (vm_map_phys va phdr.p_memsz va (bit_or pl.perm_r pl.perm_w))
        if r != 0 then pure r else do
          r' ← ask h (elf_load_ph phdr.p_vaddr off)
          if r' != 0 then pure r' else do
            r'' ← ask h (vm_mprotect va phdr.p_memsz perm)
            if r'' != 0 then pure r'' else pure 0

  pub process_elf_ph : (e_type : ℕ) → Phdr → M ℕ
  process_elf_ph e_type phdr =
      let off = segment_off e_type in
      if phdr.p_type == pt_interp
      then pure (neg einval)
      else if phdr.p_type != pt_load
      then pure 0
      else if ltb app_max_elf_vaddr (phdr.p_vaddr +w off +w phdr.p_memsz)
          || ltb app_max_elf_vaddr phdr.p_memsz
          || ltb phdr.p_memsz phdr.p_filesz
      then pure (neg einval)
      else load_segment off phdr

  -- What `*data` is given, `none` where the function fails before.
  elf_data_of : Ehdr → ElfData
  elf_data_of hdr =
      if hdr.e_type == et_dyn
      then record {
        entry = hdr.e_entry +w loader_vaddr_off;
        phdr = hdr.e_phoff +w loader_vaddr_off;
        phnum = hdr.e_phnum;
      }
      else record { entry = hdr.e_entry; phdr = hdr.e_phoff +w 0x400000; phnum = hdr.e_phnum }

  -- `hdr` is what dune_elf_open reads; `iter_ph` is libdune's dune_elf_iter_ph.
  pub load_elf : (hdr : Ehdr) (iter_ph : (Phdr → M ℕ) → M ℕ) → M (ℕ × Option ElfData)
  load_elf hdr iter_ph = do
    r ← ask h elf_open
    if r != 0
        then pure (r, none)
        else if hdr.e_type != et_exec && hdr.e_type != et_dyn
        then (do tell h elf_close; pure (neg einval, none))
        else (do
          r' ← iter_ph (process_elf_ph hdr.e_type)
          tell h elf_close
          if r' != 0 then pure (r', none) else pure (0, some (elf_data_of hdr)))

  -- A zeroed frame but for its entry and its stack.
  pub run_app : (sp e_entry : ℕ) → M ℕ
  run_app sp e_entry = ask h (jump_to_user e_entry sp 0)

  pub trap_init : M ℕ
  trap_init = do
    r ← ask h mutex_init
    if r != 0 then pure (neg 1) else do tell h register_pgflt; tell h register_syscall; pure 0

  -- `-errno` for a negative value.
  pub get_err : (r : ℕ) → M ℕ
  get_err r = if leb (2 ^ 63) r then neg_errno h else pure r

-- How many strings there are, and the bytes from the first to the end of the last, which lie in a
-- row. `nul_of` is rawmemchr(p, 0).
args_from : (nul_of : ℕ → ℕ) (first last : ℕ) (rest : List ℕ) (i : ℕ) → ℕ × ℕ
args_from nul_of first last [] i = (i, nul_of last -w first +w 1)
args_from nul_of first last (a ∷ rest) i = args_from nul_of first a rest (i + 1)

pub count_args : (nul_of : ℕ → ℕ) (argv : List ℕ) → ℕ × ℕ
count_args nul_of [] = (0, 0)
count_args nul_of (a ∷ rest) = args_from nul_of a a rest 1

-- An entry of the auxiliary vector.
pub record Auxv : Type 0 where
  pub a_type : ℕ
  pub a_val : ℕ

unfoldable pub find_aux_entry : List Auxv → (type : ℕ) → Option Auxv
find_aux_entry [] type = none
find_aux_entry (aux ∷ next) type =
    let rest = find_aux_entry next type in
    if aux.a_type == 0 then none else if aux.a_type == type then some aux else rest

-- `assert(found)` ends the process: `none`.
copy_aux : List Auxv → (type : ℕ) → Option Auxv
copy_aux ref type = elim (find_aux_entry ref type) [
  | none ↦ none
  | some found ↦ some (record { a_type = type; a_val = found.a_val })
]

-- An entry to copy, or one that is set.
data Slot : Type 0 where
  copied : (type : ℕ) → Slot
  given : (type value : ℕ) → Slot

fill : List Auxv → List Slot → Option (List Auxv)
fill ref [] = some []
fill ref (copied t ∷ slots) =
    let rest = fill ref slots in
    elim (copy_aux ref t) [
      | none ↦ none
      | some e ↦ elim rest [ none ↦ none | some es ↦ some (e ∷ es) ]
    ]
fill ref (given t v ∷ slots) =
    let rest = fill ref slots in
    elim rest [ none ↦ none | some es ↦ some (record { a_type = t; a_val = v } ∷ es) ]

-- The entries in the order of `cur++`: AT_HWCAP, AT_PAGESZ, AT_CLKTCK, AT_PHDR, AT_PHNUM, AT_FLAGS,
-- AT_ENTRY, AT_UID, AT_EUID, AT_GID, AT_EGID, AT_SECURE, AT_RANDOM and the end, of which only the
-- type is set (its value is 0 here).
slots : ElfData → List Slot
slots d =
    copied 16
    ∷ copied 6
    ∷ copied 17
    ∷ given 3 d.phdr
    ∷ given 5 d.phnum
    ∷ copied 8
    ∷ given 9 d.entry
    ∷ copied 11
    ∷ copied 12
    ∷ copied 13
    ∷ copied 14
    ∷ given 23 0
    ∷ given 25 d.phdr
    ∷ given 0 0
    ∷ []

-- What is written to the new vector.
pub setup_aux : List Auxv → ElfData → Option (List Auxv)
setup_aux ref d = fill ref (slots d)

abbrev pub num_aux : ℕ
num_aux = 13

-- ===== src/Loader/Segments.antt =====
-- Where the segments of a program go.
use vmpl_apps.Base.{ℕ, ◌∷◌, arith}
use vmpl_apps.Host.{Platform, Host, Machine, M, machine_of, elf_open}
use vmpl_apps.Umm.Confined.{IsConfined}
use vmpl_apps.Loader.{Phdr, Ehdr, process_elf_ph, load_segment, segment_off, load_elf}

-- dune_elf_iter_ph does nothing but call its argument: it keeps what the calls keep.
abbrev pub IsIteration : ((Phdr → M ℕ) → M ℕ) → Type 1
IsIteration iter_ph =
    (P : Machine → Type 0) (visit : Phdr → M ℕ)
    → ((phdr : Phdr) (s : Machine) → P s → P (machine_of (visit phdr s)))
    → (s : Machine) → P s
    → P (machine_of (iter_ph visit s))

module _ (pl : Platform) (h : Host) where
  pub process_elf_ph-IsConfined :
      (e_type : ℕ) (phdr : Phdr) (s : Machine)
      → IsConfined pl s
      → IsConfined pl (machine_of (process_elf_ph pl h e_type phdr s))
  unfolding process_elf_ph load_segment segment_off
  process_elf_ph-IsConfined e_type phdr s c = ground arith

  -- Whatever the program headers say, and for every answer of the kernel and libdune, loading a
  -- program hands on only ranges that pass as the application's (IsInside, with the references
  -- that wrap around), where they were so before and dune_elf_iter_ph does nothing but call its
  -- argument.
  load_elf-IsConfined :
      (hdr : Ehdr) (iter_ph : (Phdr → M ℕ) → M ℕ) (s : Machine)
      → IsIteration iter_ph
      → IsConfined pl s
      → IsConfined pl (machine_of (load_elf pl h hdr iter_ph s))
  unfolding load_elf
  load_elf-IsConfined hdr iter_ph s law c = ground (
    arith,
    law (IsConfined pl) (process_elf_ph pl h hdr.e_type)
        (λ phdr s' c'. process_elf_ph-IsConfined hdr.e_type phdr s' c')
        (record s { log = elf_open ∷ s.log }) (tt, c),
  )

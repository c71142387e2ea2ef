-- ===== src/Loader/Start/Safe.antt =====
-- How a program finds the machine when it starts.
use vmpl_apps.Base.{ℕ, Option, none, some, List, arith}
use vmpl_apps.Host.{Platform, IsPlatform, Host, Machine, M, machine_of}
use vmpl_apps.Umm.Layout.{umm_alloc_stack-IsLaidOut}
use vmpl_apps.Umm.Confined.{IsGood, umm_alloc_stack-IsConfined}
use vmpl_apps.Umm.{umm_alloc_stack}
use vmpl_apps.Umm.Keeps.{Keeps, ask-Keeps, tell-Keeps, pure-Keeps, exit-Keeps, if-Keeps, bind-Keeps}
use vmpl_apps.Loader.{
  Phdr, Ehdr, ElfData, Auxv, process_elf_ph, load_segment, load_elf, trap_init, run_app,
}
use vmpl_apps.Loader.Segments.{IsIteration, process_elf_ph-IsConfined}
use vmpl_apps.Loader.Start.{Store, run_block, with_stack, with_data, boxer_main}

module _ (pl : Platform) (ok : IsPlatform pl) (h : Host) where
  process_elf_ph-Keeps : (e_type : ℕ) (phdr : Phdr) → Keeps pl (process_elf_ph pl h e_type phdr)
  unfolding Keeps process_elf_ph load_segment
  process_elf_ph-Keeps e_type phdr s g =
      (ground arith, process_elf_ph-IsConfined pl h e_type phdr s g.1)

  iter_ph-Keeps :
      (e_type : ℕ) (iter_ph : (Phdr → M ℕ) → M ℕ)
      → IsIteration iter_ph
      → Keeps pl (iter_ph (process_elf_ph pl h e_type))
  unfolding Keeps
  iter_ph-Keeps e_type iter_ph law =
      law (IsGood pl) (process_elf_ph pl h e_type) (process_elf_ph-Keeps e_type)

  umm_alloc_stack-Keeps : Keeps pl (umm_alloc_stack pl h)
  unfolding Keeps
  umm_alloc_stack-Keeps s g =
      (umm_alloc_stack-IsLaidOut pl ok h s g.0, umm_alloc_stack-IsConfined pl ok h s g.0 g.1)

  ruleset keeps = (ask-Keeps, tell-Keeps, pure-Keeps, if-Keeps, bind-Keeps, umm_alloc_stack-Keeps)

  trap_init-Keeps : Keeps pl (trap_init pl h)
  unfolding trap_init
  trap_init-Keeps = search keeps

  load_elf-Keeps :
      (hdr : Ehdr) (iter_ph : (Phdr → M ℕ) → M ℕ)
      → IsIteration iter_ph
      → Keeps pl (load_elf pl h hdr iter_ph)
  unfolding load_elf
  load_elf-Keeps hdr iter_ph law = search (keeps, iter_ph-Keeps hdr.e_type iter_ph law) depth 12

  -- `exit` ends the process.
  run_block-Keeps :
      (strlen : ℕ → ℕ) (elf_data : ElfData) (o : Option (ℕ × List Store))
      → Keeps pl (run_block strlen pl h elf_data o)
  unfolding run_block run_app
  run_block-Keeps strlen elf_data none = exit-Keeps pl (ℕ × List Store)
  run_block-Keeps strlen elf_data (some (sp, stores)) = search keeps depth 12

  module _ (strlen : ℕ → ℕ) (path : ℕ) (argv envv : List ℕ) (aux : List Auxv) where
    with_stack-Keeps :
        (elf_data : ElfData) (r : ℕ × Option ℕ)
        → Keeps pl (with_stack strlen pl h path argv envv aux elf_data r)
    unfolding with_stack
    with_stack-Keeps elf_data (r, none) = search keeps depth 12
    with_stack-Keeps elf_data (r, some sp) = search (keeps, run_block-Keeps) depth 12

    with_data-Keeps :
        (r : ℕ × Option ElfData) → Keeps pl (with_data strlen pl h path argv envv aux r)
    unfolding with_data
    with_data-Keeps (r, none) = search keeps depth 12
    with_data-Keeps (r, some elf_data) = search (keeps, trap_init-Keeps, with_stack-Keeps) depth 12

    pub boxer_main-Keeps :
        (argc : ℕ) (hdr : Ehdr) (iter_ph : (Phdr → M ℕ) → M ℕ)
        → IsIteration iter_ph
        → Keeps pl (boxer_main strlen pl h argc hdr iter_ph path argv envv aux)
    unfolding boxer_main
    boxer_main-Keeps argc hdr iter_ph law = search (keeps, load_elf-Keeps, with_data-Keeps) depth 12

    -- Whatever the program headers, the arguments and the auxiliary vector are, and for every
    -- answer of the kernel and libdune: on a lawful platform, where dune_elf_iter_ph does
    -- nothing but call its argument, boxer_main keeps the areas laid out well and every range
    -- that was handed on the application's (IsGood). It does so on every branch, also where
    -- setup_aux ends the process.
    boxer_main-IsGood :
        (argc : ℕ) (hdr : Ehdr) (iter_ph : (Phdr → M ℕ) → M ℕ) (s : Machine)
        → IsIteration iter_ph
        → IsGood pl s
        → IsGood pl (machine_of (boxer_main strlen pl h argc hdr iter_ph path argv envv aux s))
    unfolding Keeps
    boxer_main-IsGood argc hdr iter_ph s law g = boxer_main-Keeps argc hdr iter_ph law s g

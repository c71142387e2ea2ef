-- ===== src/Loader/Tests.antt =====
-- Runs of the loader, and the witnesses of its theorems.
use vmpl_apps.Base.{◌≡◌, refl, some, List, [], ◌∷◌, ◌+◌, ◌-◌, ◌^◌}
use vmpl_apps.Host.{ret}
use vmpl_apps.Samples.{platform, host, machine}
use vmpl_apps.Loader.Samples.{code, vector, loaded}
use vmpl_apps.Loader.{
  Phdr, Auxv, process_elf_ph, load_segment, segment_off, setup_aux, slots, fill, copy_aux,
  find_aux_entry, count_args, args_from,
}

-- A segment that ends behind APP_MAX_ELF_VADDR.
abbrev high : Phdr
high = record code { p_memsz = 2 ^ 47 }

refuses_high : process_elf_ph platform host 2 high machine ≡ ret (2 ^ 64 - 22) machine
unfolding process_elf_ph load_segment segment_off
refuses_high = refl

counts : count_args (λ a. a + 5) (100 ∷ 106 ∷ []) ≡ (2, 12)
unfolding count_args args_from
counts = refl

abbrev written : List Auxv
written =
    record { a_type = 16; a_val = 1 }
    ∷ record { a_type = 6; a_val = 4096 }
    ∷ record { a_type = 17; a_val = 100 }
    ∷ record { a_type = 3; a_val = 0x400040 }
    ∷ record { a_type = 5; a_val = 1 }
    ∷ record { a_type = 8; a_val = 0 }
    ∷ record { a_type = 9; a_val = 0x400010 }
    ∷ record { a_type = 11; a_val = 1000 }
    ∷ record { a_type = 12; a_val = 1000 }
    ∷ record { a_type = 13; a_val = 1000 }
    ∷ record { a_type = 14; a_val = 1000 }
    ∷ record { a_type = 23; a_val = 0 }
    ∷ record { a_type = 25; a_val = 0x400040 }
    ∷ record { a_type = 0; a_val = 0 }
    ∷ []

writes : setup_aux vector loaded ≡ some written
unfolding setup_aux slots fill copy_aux find_aux_entry
writes = refl

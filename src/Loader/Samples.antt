-- ===== src/Loader/Samples.antt =====
-- A program with one segment, and an auxiliary vector.
use vmpl_apps.Base.{ℕ, List, [], ◌∷◌}
use vmpl_apps.Host.{M}
use vmpl_apps.Loader.{Phdr, Ehdr, Auxv, ElfData}

abbrev pub code : Phdr
code = record { p_type = 1; p_flags = 5; p_vaddr = 0x400000; p_filesz = 100; p_memsz = 4096 }

abbrev pub program : Ehdr
program = record { e_type = 2; e_entry = 0x400010; e_phoff = 64; e_phnum = 1 }

-- A file with one program header.
abbrev pub only_text : (Phdr → M ℕ) → M ℕ
only_text visit = visit code

abbrev pub vector : List Auxv
vector =
    record { a_type = 16; a_val = 1 }
    ∷ record { a_type = 6; a_val = 4096 }
    ∷ record { a_type = 17; a_val = 100 }
    ∷ record { a_type = 8; a_val = 0 }
    ∷ record { a_type = 11; a_val = 1000 }
    ∷ record { a_type = 12; a_val = 1000 }
    ∷ record { a_type = 13; a_val = 1000 }
    ∷ record { a_type = 14; a_val = 1000 }
    ∷ record { a_type = 0; a_val = 0 }
    ∷ []

abbrev pub loaded : ElfData
loaded = record { entry = 0x400010; phdr = 0x400040; phnum = 1 }

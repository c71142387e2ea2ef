-- ===== src/Loader/Start.antt =====
-- sandbox/src/main.c: setup_arguments and boxer_main.
pub mod Safe
mod Runs
pub mod Overlap
use vmpl_apps.Base.{
  ℕ, ◌+◌, ◌-◌, ◌*◌, ◌^◌, Bool, Option, none, some, List, [], ◌∷◌, ◌++◌, length, bit_and, ltb, ◌==◌,
  ◌!=◌, if◌then◌else◌,
}
use vmpl_apps.Base.Words.{◌+w◌, ◌-w◌, neg}
use vmpl_apps.Base.Linux.{einval}
use vmpl_apps.Host.{
  Platform, Host, M, Machine, Outcome, pure, exit, ◌>>=◌, ◌>>◌, ask, tell, init, enter, set_user_fs,
}
use vmpl_apps.Umm.{umm_alloc_stack}
use vmpl_apps.Loader.{
  Phdr, Ehdr, ElfData, Auxv, count_args, setup_aux, num_aux, load_elf, trap_init, run_app,
}

-- What is written to the stack of the program: a word, or a string with its end.
pub data Store : Type 0 where
  word : (addr value : ℕ) → Store
  text : (dst src : ℕ) → Store

-- The two pointers that move on.
pub record Cursor : Type 0 where
  pub arg_ptr : ℕ
  pub data_ptr : ℕ

abbrev sizeof_auxv : ℕ
sizeof_auxv = 16

abbrev pub align_32 : ℕ → ℕ
align_32 len = bit_and (len +w 0x1f) (2 ^ 64 - 1 - 0x1f)

module _ (strlen : ℕ → ℕ) where
  -- stpcpy(data_ptr, p) + 1.
  past : Cursor → (p : ℕ) → Cursor
  past at p = record { arg_ptr = at.arg_ptr +w 8; data_ptr = at.data_ptr +w strlen p +w 1 }

  -- One of the two `for` loops, and the NULL behind it.
  put_strings : Cursor → List ℕ → List Store × Cursor
  unfolding past
  put_strings at [] = (word at.arg_ptr 0 ∷ [], record at { arg_ptr = at.arg_ptr +w 8 })
  put_strings at (p ∷ l) =
      let (stores, at') = put_strings (past at p) l in
      (word at.arg_ptr at.data_ptr ∷ text at.data_ptr p ∷ stores, at')

  -- Of the last entry only the type is written.
  put_aux : (addr : ℕ) → List Auxv → List Store
  put_aux addr [] = []
  put_aux addr (e ∷ []) = word addr e.a_type ∷ []
  put_aux addr (e ∷ e' ∷ l) =
      word addr e.a_type ∷ word (addr +w 8) e.a_val ∷ put_aux (addr +w sizeof_auxv) (e' ∷ l)

  nul_of : ℕ → ℕ
  nul_of p = p +w strlen p

  -- The bytes of all strings, and the length of the block before and behind its alignment.
  pub text_len : (path : ℕ) (argv envv : List ℕ) → ℕ
  unfolding nul_of
  text_len path argv envv =
      (count_args nul_of argv).1 +w (count_args nul_of envv).1 +w strlen path +w 1

  pub block_len : (path : ℕ) (argv envv : List ℕ) → ℕ
  unfolding nul_of text_len
  block_len path argv envv =
      text_len path argv envv
      +w sizeof_auxv * num_aux
      +w ((count_args nul_of argv).0 + (count_args nul_of envv).0 + 4) * 8

  -- The new stack pointer and what is written; `none` where setup_aux ends the process. `aux` is the
  -- vector behind `envv`.
  pub setup_arguments :
      (sp path : ℕ) (argv envv : List ℕ) → List Auxv → ElfData → Option (ℕ × List Store)
  unfolding put_strings put_aux text_len block_len
  setup_arguments sp path argv envv aux elf_data =
      let data_ptr = sp -w text_len path argv envv in
      let bottom = sp -w align_32 (block_len path argv envv) in
      let named = past (record { arg_ptr = bottom +w 8; data_ptr = data_ptr }) path in
      let (args, behind_args) = put_strings named argv in
      let (envs, behind_envs) = put_strings behind_args envv in
      elim (setup_aux aux elf_data) [
        | none ↦ none
        | some es ↦ some (
          bottom,
          word bottom ((count_args nul_of argv).0 + 1)
                ∷ word (bottom +w 8) data_ptr
                ∷ text data_ptr path
                ∷ args
              ++ envs
              ++ put_aux behind_envs.arg_ptr es,
        )
      ]

  module _ (pl : Platform) (h : Host) where
    -- `!sp` is an error; else the program runs.
    run_block : ElfData → Option (ℕ × List Store) → M (ℕ × List Store)
    run_block elf_data none = exit
    run_block elf_data (some (sp, stores)) =
        if sp == 0
        then pure (neg einval, stores)
        else do r ← run_app pl h sp elf_data.entry; pure (r, stores)

    -- Behind umm_alloc_stack.
    with_stack :
        (path : ℕ) (argv envv : List ℕ) → List Auxv → ElfData → ℕ × Option ℕ → M (ℕ × List Store)
    unfolding run_block
    with_stack path argv envv aux elf_data (r, none) = pure (r, [])
    with_stack path argv envv aux elf_data (r, some sp) =
        if r != 0
        then pure (r, [])
        else run_block elf_data (setup_arguments sp path argv envv aux elf_data)

    -- Behind load_elf.
    with_data :
        (path : ℕ) (argv envv : List ℕ) → List Auxv → ℕ × Option ElfData → M (ℕ × List Store)
    unfolding with_stack
    with_data path argv envv aux (r, none) = pure (r, [])
    with_data path argv envv aux (r, some elf_data) = if r != 0 then pure (r, []) else do
      tell h (set_user_fs 0)
      r' ← trap_init pl h
      if r' != 0
          then pure (r', [])
          else do stack ← umm_alloc_stack pl h; with_stack path argv envv aux elf_data stack

    -- `path` is argv[1] and `argv` what is behind it; `argc` counts the program's name and both. The
    -- result with what was written to the stack.
    pub boxer_main :
        (argc : ℕ) (hdr : Ehdr) (iter_ph : (Phdr → M ℕ) → M ℕ) (path : ℕ) (argv envv : List ℕ)
        (aux : List Auxv)
        → M (ℕ × List Store)
    unfolding with_data
    boxer_main argc hdr iter_ph path argv envv aux =
        if ltb argc 2 then pure (neg einval, []) else do
          r ← ask h init
          if r != 0 then pure (r, []) else do
            r' ← ask h enter
            if r' != 0
                then pure (r', [])
                else do loaded ← load_elf pl h hdr iter_ph; with_data path argv envv aux loaded

-- ===== src/Exec.antt =====
-- sandbox/src/exec.c: execve of an ELF file or of a script, by a new sandbox.
pub mod Scan
pub mod Quiet
mod Tests
use vmpl_apps.Base.{
  ℕ, zero, suc, ◌+◌, ◌-◌, ◌^◌, Bool, true, false, ◌&&◌, ◌||◌, List, [], ◌∷◌, ◌++◌, map, ltb, leb,
  ◌==◌, ◌!=◌, length, if◌then◌else◌,
}
use vmpl_apps.Base.Words.{neg}
use vmpl_apps.Base.Linux.{enoexec}
use vmpl_apps.Host.{
  Host, M, pure, exit, ◌>>=◌, ◌>>◌, ask, tell, neg_errno, ret, Arg, sandbox_path, ld_path, pointer,
  in_page, null, open_rdonly, read_page, close, fork, execve,
}

abbrev pub execpgsize : ℕ
execpgsize = 4096

-- `arr` holds the entries before the null pointer.
unfoldable pub getlen : List ℕ → ℕ
getlen arr = length arr

-- The copy loop `for (i = 0; i <= arglen; i++)`, with the null pointer at the end.
unfoldable pub copy_args : List ℕ → List Arg
copy_args arr = map pointer arr ++ null ∷ []

abbrev pub put : (ℕ → ℕ) → ℕ → ℕ → ℕ → ℕ
put page i v j = if i == j then v else page j

abbrev pub is_blank : ℕ → Bool
is_blank c = c == b' ' || c == 9

abbrev pub is_line_end : ℕ → Bool
is_line_end c = c == 10 || c == 0

-- `for (; i < EXECPGSIZE; i++) if (stop(page[i])) break;` with the rounds left.
unfoldable pub scan : (stop : ℕ → Bool) (page : ℕ → ℕ) (rounds i : ℕ) → ℕ
scan stop page zero i = i
scan stop page (suc rounds) i =
    let rest = scan stop page rounds (i + 1) in if stop (page i) then i else rest

-- What the parsing of a first page comes to: an error, a program to run with its arguments and the
-- page as it was left, or an access behind the page.
pub data Plan : Type 0 where
  refused : Plan
  launch : (argv : List Arg) (page : ℕ → ℕ) → Plan
  overrun : Plan

unfoldable pub plan_elf : (argv : List ℕ) (page : ℕ → ℕ) → Plan
plan_elf argv page = launch (sandbox_path ∷ ld_path ∷ copy_args argv ++ null ∷ []) page

unfoldable pub is_elf : (ℕ → ℕ) → Bool
is_elf page = page 0 == 0x7f && page 1 == b'E' && page 2 == b'L' && page 3 == b'F'

unfoldable pub is_script : (ℕ → ℕ) → Bool
is_script page = page 0 == b'#' || page 1 == b'!'

-- The three positions that the scans of a script find.
unfoldable pub interp_begin : (ℕ → ℕ) → ℕ
interp_begin page = scan (λ c. c != b' ' && c != 9) page (execpgsize - 2) 2

unfoldable pub interp_end : (ℕ → ℕ) → ℕ
interp_end page =
    scan (λ c. is_blank c || is_line_end c) page (execpgsize - interp_begin page)
      (interp_begin page)

unfoldable pub arg_end : (ℕ → ℕ) → ℕ
arg_end page = scan is_line_end page (execpgsize - interp_end page) (interp_end page)

unfoldable pub plan_script : (filename : ℕ) (argv : List ℕ) (page : ℕ → ℕ) → Plan
plan_script filename argv page =
    let b = interp_begin page in
    let e = interp_end page in
    let a = arg_end page in
    let tail = pointer filename ∷ copy_args argv ++ null ∷ [] in
    if b == e || page b == 0
    then refused
    else if leb execpgsize e
    then overrun
    else if page e == 10
    then launch (sandbox_path ∷ ld_path ∷ in_page b ∷ tail) (put page e 0)
    else if leb execpgsize a
    then overrun
    else launch (sandbox_path ∷ ld_path ∷ in_page b ∷ in_page (e + 1) ∷ tail)
        (put (put page a 0) e 0)

-- A negative `int`.
abbrev pub is_neg : ℕ → Bool
is_neg w = leb (2 ^ 63) w

unfoldable pub plan_of : (filename : ℕ) (argv : List ℕ) (page : ℕ → ℕ) → Plan
plan_of filename argv page =
    if is_elf page
    then plan_elf argv page
    else if is_script page
    then plan_script filename argv page
    else refused

module _ (h : Host) where
  -- `fork`, and `execve` in the child; the parent exits, and so does the child if `execve` returns.
  run_plan : Plan → (envp : ℕ) → M ℕ
  run_plan refused envp = pure (neg enoexec)
  -- C does not say what an access behind the page does; here nothing more is done.
  run_plan overrun envp = exit
  run_plan (launch argv page) envp = do
    status ← ask h fork
    if is_neg status
        then pure status
        else if status != 0
        then exit
        else do tell h (execve argv page envp); exit

  read_first : M (ℕ → ℕ)
  read_first s = ret (h.page_bytes s.log) s

  array_of : ℕ → M (List ℕ)
  array_of ptr s = ret (h.array_at s.log ptr) s

  pub exec_execev : (filename argv envp : ℕ) → M ℕ
  exec_execev filename argv envp = do
    fd ← ask h (open_rdonly filename)
    if is_neg fd then neg_errno h else do
      len ← ask h (read_page fd execpgsize)
      if is_neg len || ltb len 2 then pure (neg enoexec) else do
        tell h (close fd)
        page ← read_first
        args ← array_of argv
        run_plan (plan_of filename args (if ltb len execpgsize then put page len 0 else page)) envp

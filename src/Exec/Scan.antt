-- ===== src/Exec/Scan.antt =====
-- What the scans of exec.c find, and what is run for a script.
use vmpl_apps.Base.{
  ℕ, zero, suc, ◌+◌, ◌-◌, ◌≤◌, ◌<◌, ◌≡◌, ◌≢◌, inl, inr, Bool, true, false, ◌&&◌, ◌||◌, List, [],
  ◌∷◌, ◌++◌, arith, Bool-cases, ◌==◌, ◌!=◌, if◌then◌else◌,
}
use vmpl_apps.Host.{Arg, sandbox_path, ld_path, pointer, in_page, null}
use vmpl_apps.Exec.{
  execpgsize, put, is_blank, is_line_end, scan, overrun, plan_elf, interp_begin, interp_end,
  arg_end, copy_args, plan_script, plan_of,
}

-- A scan stops at the first position that passes the test, or behind the page.
module _ (stop : ℕ → Bool) (page : ℕ → ℕ) where
  scan_bounds : (n i : ℕ) → (i ≤ scan stop page n i) × (scan stop page n i ≤ i + n)
  unfolding scan
  scan_bounds zero i = omega arith
  scan_bounds (suc n) i = ground (arith, scan_bounds n (i + 1))

  scan_stop : (n i : ℕ) → scan stop page n i < i + n → stop (page (scan stop page n i)) ≡ true
  unfolding scan
  scan_stop zero i p = absurd (omega arith)
  scan_stop (suc n) i p = ground (arith, scan_stop n (i + 1))

  -- A stop ahead is not passed over.
  scan_reaches : (n i k : ℕ) → i ≤ k → stop (page k) ≡ true → scan stop page n i ≤ k
  unfolding scan
  scan_reaches zero i k p q = omega arith
  scan_reaches (suc n) i k p q = elim (Bool-cases (k == i)) [
    | inl here ↦ ground arith
    | inr later ↦ ground (arith, scan_reaches n (i + 1) k)
  ]

module _ (page : ℕ → ℕ) where
  begin_bounds : (2 ≤ interp_begin page) × (interp_begin page ≤ execpgsize)
  unfolding interp_begin
  begin_bounds = ground (arith, scan_bounds (λ c. c != b' ' && c != 9) page (execpgsize - 2) 2)

  end_bounds : (interp_begin page ≤ interp_end page) × (interp_end page ≤ execpgsize)
  unfolding interp_end
  end_bounds = ground (
    arith,
    begin_bounds,
    scan_bounds (λ c. is_blank c || is_line_end c) page (execpgsize - interp_begin page)
        (interp_begin page),
  )

  -- The arguments of the new sandbox: the interpreter and, unless its line ends there, what follows
  -- it on the line; then the script and its own arguments.
  abbrev pub script_args : (filename : ℕ) (argv : List ℕ) → List Arg
  script_args filename argv =
      let tail = pointer filename ∷ copy_args argv ++ null ∷ [] in
      if page (interp_end page) == 10
      then sandbox_path ∷ ld_path ∷ in_page (interp_begin page) ∷ tail
      else sandbox_path
        ∷ ld_path
        ∷ in_page (interp_begin page)
        ∷ in_page (interp_end page + 1)
        ∷ tail

  -- Where no blank and no line end follows, the scan for the end runs off the page.
  runs_off :
      ((j : ℕ) → 2 ≤ j → j < execpgsize → (is_blank (page j) || is_line_end (page j)) ≡ false)
      → (interp_begin page ≡ 2) × (interp_end page ≡ execpgsize)
  unfolding interp_begin interp_end
  runs_off none =
      let stop : ℕ → Bool = λ c. is_blank c || is_line_end c in
      let b = interp_begin page in
      let at_two : b ≡ 2 = ground (
        arith,
        begin_bounds,
        none 2,
        scan_reaches (λ c. c != b' ' && c != 9) page (execpgsize - 2) 2 2,
      ) in
      (
        at_two,
        ground (
          arith,
          end_bounds,
          at_two,
          scan_stop stop page (execpgsize - b) b,
          none (interp_end page),
        ),
      )

  -- If no blank, zero byte or newline follows the first two bytes of a full page, the scan ends
  -- behind the page, and the page is accessed there.
  plan_script_overruns :
      (filename : ℕ) (argv : List ℕ)
      → ((j : ℕ) → 2 ≤ j → j < execpgsize → (is_blank (page j) || is_line_end (page j)) ≡ false)
      → plan_script filename argv page ≡ overrun
  unfolding plan_script
  plan_script_overruns filename argv none =
      ground (arith, begin_bounds, end_bounds, runs_off none, none 2)

module _ (page : ℕ → ℕ) where
  reaches :
      (len : ℕ)
      → 2 ≤ len
      → page len ≡ 0
      → (interp_begin page ≤ len) × (interp_end page ≤ len) × (arg_end page ≤ len)
  unfolding interp_begin interp_end arg_end
  reaches len h z =
      let stop : ℕ → Bool = λ c. is_blank c || is_line_end c in
      let b : interp_begin page ≤ len =
        ground (arith, scan_reaches (λ c. c != b' ' && c != 9) page (execpgsize - 2) 2 len) in
      let e : interp_end page ≤ len =
        ground (
          arith,
          scan_reaches stop page (execpgsize - interp_begin page) (interp_begin page) len,
        ) in
      (
        b,
        e,
        ground (
          arith,
          scan_reaches is_line_end page (execpgsize - interp_end page) (interp_end page) len,
        ),
      )

-- For a file of at least 2 bytes that is shorter than the page, whose end is marked by a zero
-- byte, no scan leaves the page.
plan_of-short :
    (filename len : ℕ) (argv : List ℕ) (page : ℕ → ℕ)
    → 2 ≤ len
    → len < execpgsize
    → plan_of filename argv (put page len 0) ≢ overrun
unfolding plan_of plan_script plan_elf
plan_of-short filename len argv page lo hi e = ground (arith, reaches (put page len 0) len lo)

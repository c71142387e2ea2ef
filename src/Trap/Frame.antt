-- ===== src/Trap/Frame.antt =====
-- The part of libdune's `struct dune_tf` that trap.c reads and writes: the registers of a trap, with
-- the six arguments under the names of the macros ARG0 to ARG5.
use vmpl_apps.Base.{ℕ}

pub record Tf : Type 0 where
  pub rax : ℕ
  pub arg0 : ℕ
  pub arg1 : ℕ
  pub arg2 : ℕ
  pub arg3 : ℕ
  pub arg4 : ℕ
  pub arg5 : ℕ
  pub rip : ℕ
  pub rsp : ℕ
  pub cs : ℕ

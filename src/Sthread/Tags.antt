-- ===== src/Sthread/Tags.antt =====
-- wedge/src/sthread.c: smalloc and sc_mem_add, on the list of tags. (tag_new, which adds a tag, is in
-- Sthread.Kernel, since it asks for memory.)
pub mod Adds
pub mod Bump
pub mod Calls
use vmpl_apps.Base.{
  ℕ, zero, suc, ◌+◌, ◌^◌, Bool, Option, none, some, List, [], ◌∷◌, bit_and, bit_or, leb, ◌==◌,
  if◌then◌else◌,
}
use vmpl_apps.Base.Words.{◌+w◌, ◌-w◌}
use vmpl_apps.Sthread.{Result, ok, stopped, sign_ext}
use vmpl_apps.Sthread.Perms.{Sc, put_in_free}

-- `struct tag` without its link.
pub record Tag : Type 0 where
  pub t_id : ℕ
  pub t_buf : ℕ
  pub t_p : ℕ
  pub t_len : ℕ

-- The first tag of the list with the number.
unfoldable pub find_tag : List Tag → (tid : ℕ) → Option Tag
find_tag [] tid = none
find_tag (t ∷ next) tid = let rest = find_tag next tid in if t.t_id == tid then some t else rest

-- `none` is NULL.
unfoldable pub smalloc_at : (sz : ℕ) → Tag → Option ℕ × Tag
smalloc_at sz t =
    if leb (t.t_p -w t.t_buf +w sz) t.t_len
    then (some t.t_p, record t { t_p = t.t_p +w sz })
    else (none, t)

-- The result, and the tags with the pointer moved.
unfoldable pub smalloc : List Tag → (tid sz : ℕ) → Option ℕ × List Tag
unfolding smalloc_at
smalloc [] tid sz = (none, [])
smalloc (t ∷ next) tid sz =
    let (p, next') = smalloc next tid sz in
    if t.t_id == tid then (let (q, t') = smalloc_at sz t in (q, t' ∷ next)) else (p, t ∷ next')

-- `prot` is an `int`.
unfoldable pub sc_mem_add : List Tag → (tid prot : ℕ) → Sc → Result Sc
sc_mem_add tags tid prot sc = elim (find_tag tags tid) [
  | none ↦ stopped
  | some t ↦
      let addr = bit_and t.t_buf 0xfffffffffffffff0 in
      elim (put_in_free (bit_or addr (sign_ext prot)) sc.sc_mem) [
        | none ↦ stopped
        | some l ↦
            if addr == t.t_buf
            then if bit_and prot 15 == prot then ok (record sc { sc_mem = l }) else stopped
            else stopped
      ]
]

-- ===== src/Sthread/Tags/Adds.antt =====
-- What a call of sc_mem_add that returns has checked and written.
use vmpl_apps.Base.{ℕ, ◌^◌, ◌<◌, ◌≡◌, some, List, bit_and, bit_or, arith}
use vmpl_apps.Sthread.{ok}
use vmpl_apps.Sthread.Perms.{Sc, put_in_free}
use vmpl_apps.Sthread.Tags.{Tag, find_tag, sc_mem_add}

module _ (tags : List Tag) (tid prot : ℕ) (sc : Sc) {sc' : Sc} (t : Tag)
    (found : find_tag tags tid ≡ some t) (int : prot < 2 ^ 31)
    (added : sc_mem_add tags tid prot sc ≡ ok sc') where
  pub sc_mem_add-cases :
      (put_in_free (bit_or (bit_and t.t_buf 0xfffffffffffffff0) prot) sc.sc_mem ≡ some sc'.sc_mem)
      × (bit_and t.t_buf 0xfffffffffffffff0 ≡ t.t_buf)
      × (bit_and prot 15 ≡ prot)
  unfolding sc_mem_add
  sc_mem_add-cases = ground arith

-- ===== src/Loader/Start/Overlap.antt =====
-- Where the auxiliary vector of setup_arguments ends.
use vmpl_apps.Base.{
  ℕ, ◌/◌, zero, suc, ◌∙◌, ◌+◌, ◌-◌, ◌*◌, ◌%◌, ◌^◌, ◌<◌, ◌≤◌, ◌≡◌, refl, sym, ap, Option, none, some,
  List, [], ◌∷◌, ◌++◌, length, bit_and, arith,
}
use vmpl_apps.Base.Bits.{bit_and_step, bit_and-zero}
use vmpl_apps.Base.Words.{◌+w◌, ◌-w◌}
use vmpl_apps.Loader.{Auxv, ElfData, args_from, count_args, setup_aux, num_aux}
use vmpl_apps.Loader.Aux.{setup_aux_lem}
use vmpl_apps.Loader.Start.{
  Store, Cursor, word, text, past, put_strings, put_aux, text_len, block_len, align_32, nul_of,
  setup_arguments,
}

-- The address of the last store, where it is a word.
pub last_word : List Store → Option ℕ
last_word [] = none
last_word (word addr value ∷ []) = some addr
last_word (text dst src ∷ []) = none
last_word (x ∷ y ∷ l) = last_word (y ∷ l)

last_word-cons :
    (y : Store) (l : List Store) {a : ℕ} → last_word l ≡ some a → last_word (y ∷ l) ≡ some a
unfolding last_word
last_word-cons y [] e = ground arith
last_word-cons y (z ∷ l) e = e

last_word-append : (k l : List Store) {a : ℕ} → last_word l ≡ some a → last_word (k ++ l) ≡ some a
last_word-append [] l e = e
last_word-append (y ∷ k) l e = last_word-cons y (k ++ l) (last_word-append k l e)

args_from-length :
    (nul_of : ℕ → ℕ) (first last : ℕ) (rest : List ℕ) (i : ℕ)
    → (args_from nul_of first last rest i).0 ≡ i + length rest
unfolding args_from
args_from-length nul_of first last [] i = omega arith
args_from-length nul_of first last (a ∷ rest) i =
    omega (arith, args_from-length nul_of first a rest (i + 1))

count_args-length : (nul_of : ℕ → ℕ) (argv : List ℕ) → (count_args nul_of argv).0 ≡ length argv
unfolding count_args
count_args-length nul_of [] = refl
count_args-length nul_of (a ∷ rest) = omega (arith, args_from-length nul_of a a rest 1)

put_strings_lem :
    (strlen : ℕ → ℕ) (at : Cursor) (l : List ℕ)
    → (put_strings strlen at l).1.arg_ptr ≡ (at.arg_ptr + 8 * (length l + 1)) % 2 ^ 64
unfolding put_strings past
put_strings_lem strlen at [] = omega arith
put_strings_lem strlen at (p ∷ l) = omega (arith, put_strings_lem strlen (past strlen at p) l)

last_word-put_aux :
    (strlen : ℕ → ℕ) (addr : ℕ) (es : List Auxv) (n : ℕ)
    → addr < 2 ^ 64
    → length es ≡ n + 1
    → last_word (put_aux strlen addr es) ≡ some ((addr + 16 * n) % 2 ^ 64)
unfolding put_aux last_word
last_word-put_aux strlen addr [] n b c = ground arith
last_word-put_aux strlen addr (e ∷ []) n b c = ground arith
last_word-put_aux strlen addr (e ∷ e' ∷ es) zero b c = ground arith
last_word-put_aux strlen addr (e ∷ e' ∷ es) (suc n) b c =
    last_word-cons (word addr e.a_type)
      (word (addr +w 8) e.a_val ∷ put_aux strlen (addr +w 16) (e' ∷ es))
      (last_word-cons (word (addr +w 8) e.a_val) (put_aux strlen (addr +w 16) (e' ∷ es)) (
        last_word-put_aux strlen (addr +w 16) (e' ∷ es) n (omega arith) (omega arith)
        ∙ ap some (omega arith)))

-- The address arithmetic of setup_arguments: `t` and `b` are the lengths, `a` the aligned one.
end_address :
    (sp t n a b : ℕ)
    → sp < 2 ^ 64
    → t < 2 ^ 64
    → a < 2 ^ 64
    → b ≡ (t + 208 + n * 8) % 2 ^ 64
    → (((sp -w a) + n * 8) % 2 ^ 64 + 208) % 2 ^ 64 ≡ (sp -w t) -w (a -w b)
end_address sp t n a b bs bt ba e = omega arith

bit_and_le : (n a b : ℕ) → b ≤ n → bit_and a b ≤ b
bit_and_le zero a zero le = omega (arith, bit_and-zero a a (omega arith))
bit_and_le zero a (suc b) le = absurd (omega arith)
bit_and_le (suc n) a b le =
    omega (arith, bit_and_step a b, bit_and_le n (a / 2) (b / 2) (omega arith))

from_some {ℓ κ} :
    {A : Type ℓ} {B : Type κ} (o : Option A) (f : A → B) {r : B}
    → elim o [ none ↦ none | some x ↦ some (f x) ] ≡ some r
    → (x : A) × (o ≡ some x) × (f x ≡ r)
from_some none f e = ground arith
from_some (some x) f e = (x, refl, ground (arith, e))

module _ (strlen : ℕ → ℕ) (path : ℕ) (argv envv : List ℕ) where
  block_len_lem :
      block_len strlen path argv envv
      ≡ (text_len strlen path argv envv + 208 + (length argv + length envv + 4) * 8) % 2 ^ 64
  unfolding block_len
  block_len_lem =
      omega (arith, count_args-length (nul_of strlen) argv, count_args-length (nul_of strlen) envv)

  text_len_lem : text_len strlen path argv envv < 2 ^ 64
  unfolding text_len
  text_len_lem = omega arith

  -- The end of the words for the strings.
  behind_strings :
      (bottom data_ptr : ℕ)
      → (put_strings strlen
          (put_strings strlen
            (past strlen (record { arg_ptr = bottom +w 8; data_ptr = data_ptr }) path)
            argv).1
          envv).1.arg_ptr
        ≡ (bottom + (length argv + length envv + 4) * 8) % 2 ^ 64
  unfolding past
  behind_strings bottom data_ptr =
      let named = past strlen (record { arg_ptr = bottom +w 8; data_ptr = data_ptr }) path in
      omega (
        arith,
        put_strings_lem strlen named argv,
        put_strings_lem strlen (put_strings strlen named argv).1 envv,
      )

  behind_bound :
      (bottom data_ptr : ℕ)
      → (put_strings strlen
          (put_strings strlen
            (past strlen (record { arg_ptr = bottom +w 8; data_ptr = data_ptr }) path)
            argv).1
          envv).1.arg_ptr
        < 2 ^ 64
  behind_bound bottom data_ptr = omega (arith, behind_strings bottom data_ptr)

  aligned_bound : align_32 (block_len strlen path argv envv) < 2 ^ 64
  aligned_bound = omega (
    arith,
    bit_and_le (2 ^ 64) (block_len strlen path argv envv +w 0x1f) (2 ^ 64 - 1 - 0x1f) (omega arith),
  )

  -- Where setup_arguments returns, for a stack pointer below 2^64: the last of its stores is a
  -- word, at the address where the strings begin (the stack pointer less their bytes) less what
  -- the alignment of the block has added, in words that wrap around.
  pub setup_arguments_end :
      (sp : ℕ) (aux : List Auxv) (elf_data : ElfData) {bottom : ℕ} {stores : List Store}
      → sp < 2 ^ 64
      → setup_arguments strlen sp path argv envv aux elf_data ≡ some (bottom, stores)
      → last_word stores
        ≡ some (
            sp
            -w text_len strlen path argv envv
            -w (align_32 (block_len strlen path argv envv) -w block_len strlen path argv envv))
  unfolding setup_arguments
  setup_arguments_end sp aux elf_data b e =
      let bottom = sp -w align_32 (block_len strlen path argv envv) in
      let data_ptr = sp -w text_len strlen path argv envv in
      let named = past strlen (record { arg_ptr = bottom +w 8; data_ptr = data_ptr }) path in
      let args = put_strings strlen named argv in
      let (es, found, same) = from_some (setup_aux aux elf_data) _ e in
      sym (ap (λ r. last_word (r.1)) same)
      ∙ last_word-append
          (word bottom ((count_args (nul_of strlen) argv).0 + 1)
              ∷ word (bottom +w 8) data_ptr
              ∷ text data_ptr path
              ∷ args.0
            ++ (put_strings strlen args.1 envv).0)
          _
          (last_word-put_aux strlen _ es num_aux (behind_bound bottom data_ptr)
              (setup_aux_lem aux elf_data found)
            ∙ ap some (
                ap (λ a. (a + 208) % 2 ^ 64) (behind_strings bottom data_ptr)
                ∙ end_address sp (text_len strlen path argv envv) (length argv + length envv + 4)
                    (align_32 (block_len strlen path argv envv)) (block_len strlen path argv envv) b
                    text_len_lem aligned_bound block_len_lem))

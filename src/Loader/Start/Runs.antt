-- ===== src/Loader/Start/Runs.antt =====
-- A run of setup_arguments, and a witness.
use vmpl_apps.Base.{◌≡◌, refl, some, List, [], ◌∷◌, arith}
use vmpl_apps.Base.Words.{◌-w◌}
use vmpl_apps.Loader.{count_args, args_from, setup_aux, slots, fill, copy_aux, find_aux_entry}
use vmpl_apps.Loader.Samples.{vector, loaded}
use vmpl_apps.Loader.Start.{
  Store, word, text, setup_arguments, put_strings, put_aux, past, text_len, block_len, align_32,
  nul_of,
}
use vmpl_apps.Loader.Start.Overlap.{last_word, setup_arguments_end}

-- What is stored for a program with one argument and no environment.
abbrev stores : List Store
stores =
    word 65280 2
    ∷ word 65288 65528
    ∷ text 65528 500
    ∷ word 65296 65532
    ∷ text 65532 600
    ∷ word 65304 0
    ∷ word 65312 0
    ∷ word 65320 16
    ∷ word 65328 1
    ∷ word 65336 6
    ∷ word 65344 4096
    ∷ word 65352 17
    ∷ word 65360 100
    ∷ word 65368 3
    ∷ word 65376 4194368
    ∷ word 65384 5
    ∷ word 65392 1
    ∷ word 65400 8
    ∷ word 65408 0
    ∷ word 65416 9
    ∷ word 65424 4194320
    ∷ word 65432 11
    ∷ word 65440 1000
    ∷ word 65448 12
    ∷ word 65456 1000
    ∷ word 65464 13
    ∷ word 65472 1000
    ∷ word 65480 14
    ∷ word 65488 1000
    ∷ word 65496 23
    ∷ word 65504 0
    ∷ word 65512 25
    ∷ word 65520 4194368
    ∷ word 65528 0
    ∷ []

-- Every string has three bytes. The last word lies where the path does.
writes_over :
    setup_arguments (λ p. 3) 0x10000 500 (600 ∷ []) [] vector loaded ≡ some (0xff00, stores)
unfolding setup_arguments put_strings put_aux past text_len block_len nul_of count_args args_from
    setup_aux slots fill copy_aux find_aux_entry
writes_over = refl

setup_arguments_end_example :
    last_word stores
    ≡ some (
        0x10000
        -w text_len (λ p. 3) 500 (600 ∷ []) []
        -w (align_32 (block_len (λ p. 3) 500 (600 ∷ []) [])
            -w block_len (λ p. 3) 500 (600 ∷ []) []))
setup_arguments_end_example =
    setup_arguments_end (λ p. 3) 500 (600 ∷ []) [] 0x10000 vector loaded (omega arith) writes_over

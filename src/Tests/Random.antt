-- ===== src/Tests/Random.antt =====
-- src/random.c at small seeds.
use feline.Prelude.{◌≡◌, refl, arith}
use feline.Random.{Generator, c_seed_random, c_random, rotl, scramble}
use feline.Random.Stream.{IsWords, previous, previous-c_random}

abbrev start : Generator
start = record { x = 0; state0 = 1; state1 = 2 }

start-IsWords : IsWords start
start-IsWords = omega arith

rotl_run : rotl 0x8000000000000001 1 ≡ 3
unfolding rotl
rotl_run = refl

-- The first output of splitmix64 from the state 0, as published with the algorithm.
seed_run : (c_seed_random 0 start).state0 ≡ 0xE220A8397B1DCDAF
unfolding c_seed_random scramble
seed_run = refl

previous-c_random_example : previous (c_random start).1 ≡ start
previous-c_random_example = previous-c_random start start-IsWords

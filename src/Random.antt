-- ===== src/Random.antt =====
-- src/random.c: the splitmix64 and xoroshiro128+ generators behind `c_seed_random` and `c_random`.
-- The file's static variables are the fields of `Generator`; a function that assigns to them returns
-- the new record beside its result.
pub mod Rotate
pub mod Mixer
pub mod Stream
use feline.Prelude.{ℕ, ◌+◌, ◌-◌, ◌*◌, bit_or, bit_xor}
use feline.Word.{u64, ◌<<◌, ◌>>◌}

-- `x`, the state of splitmix64, and the two words of xoroshiro128+.
pub record Generator : Type 0 where
  pub x : ℕ
  pub state0 : ℕ
  pub state1 : ℕ

-- The three lines that scramble `z`, the value that `x` was just given.
unfoldable pub scramble : ℕ → ℕ
scramble z0 =
    let z1 = u64 (bit_xor z0 (z0 >> 30) * 0xBF58476D1CE4E5B9) in
    let z2 = u64 (bit_xor z1 (z1 >> 27) * 0x94D049BB133111EB) in bit_xor z2 (z2 >> 31)

unfoldable pub splitmix64_next : Generator → ℕ × Generator
splitmix64_next g = let z = u64 (g.x + 0x9E3779B97F4A7C15) in (scramble z, record g { x = z })

unfoldable pub rotl : ℕ → ℕ → ℕ
rotl s k = bit_or (s << k) (s >> (64 - k))

unfoldable pub xoroshiro128plus_next : Generator → ℕ × Generator
xoroshiro128plus_next g =
    let s0 = g.state0 in
    let result = u64 (s0 + g.state1) in
    let s1 = bit_xor g.state1 s0 in
    (
      result,
      record g { state0 = bit_xor (bit_xor (rotl s0 55) s1) (s1 << 14); state1 = rotl s1 36 },
    )

unfoldable pub c_seed_random : ℕ → Generator → Generator
unfolding splitmix64_next
c_seed_random seed g =
    let (r0, g0) = splitmix64_next (record g { x = seed }) in
    let (r1, g1) = splitmix64_next (record g0 { state0 = r0 }) in record g1 { state1 = r1 }

unfoldable pub c_random : Generator → ℕ × Generator
unfolding xoroshiro128plus_next
c_random g = xoroshiro128plus_next g

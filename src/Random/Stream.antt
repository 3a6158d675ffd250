-- ===== src/Random/Stream.antt =====
-- Whole streams of src/random.c: stepping back, seeding, and the state that is never reached.
use feline.Prelude.{ℕ, zero, suc, ◌+◌, ◌≡◌, ◌∙◌, refl, sym, ap, arith, List, [], ◌∷◌, bit_xor}
use feline.Word.{u64, IsU64, ◌<<◌}
use feline.Word.Xor.{xor-xor_cancel, xor-lt}
use feline.Random.{Generator, scramble, rotl, c_seed_random, c_random}
use feline.Random.Rotate.{rotl_55-IsU64, rotl_36-IsU64, rotl_9-rotl_55, rotl_28-rotl_36}
use feline.Random.Mixer.{scramble-injective, scramble-IsU64}

-- The static variables are 64-bit words.
pub record IsWords (g : Generator) : Type 0 where
  pub x_word : IsU64 g.x
  pub state0_word : IsU64 g.state0
  pub state1_word : IsU64 g.state1

-- The state that xoroshiro128+ must not be in: from it, every output is 0.
abbrev pub IsStuck : Generator → Type 0
IsStuck g = (g.state0 ≡ 0) × (g.state1 ≡ 0)

-- The state before a draw, from the state after it.
pub previous : Generator → Generator
previous g =
    let s1 = rotl g.state1 28 in
    let s0 = rotl (bit_xor (bit_xor g.state0 (s1 << 14)) s1) 9 in
    record g { state0 = s0; state1 = bit_xor s1 s0 }

pub c_random-IsWords : (g : Generator) → IsWords g → IsWords (c_random g).1
unfolding c_random
c_random-IsWords g h =
    let s1 = bit_xor g.state1 g.state0 in
    let s1_word = xor-lt 64 g.state1 g.state0 h.state1_word h.state0_word in
    let turned = rotl_55-IsU64 g.state0 h.state0_word in
    record {
      x_word = h.x_word;
      state0_word =
          xor-lt 64 (bit_xor (rotl g.state0 55) s1) (s1 << 14)
            (xor-lt 64 (rotl g.state0 55) s1 turned s1_word) (omega arith);
      state1_word = rotl_36-IsU64 s1 s1_word;
    }

-- Every draw from a state of 64-bit words can be taken back: the state before it is a function of the state
-- after it.
pub previous-c_random : (g : Generator) → IsWords g → previous (c_random g).1 ≡ g
unfolding previous c_random
previous-c_random g h =
    let s1 = bit_xor g.state1 g.state0 in
    let s1_word = xor-lt 64 g.state1 g.state0 h.state1_word h.state0_word in
    rw (
      rotl_28-rotl_36 s1 s1_word,
      xor-xor_cancel (bit_xor (rotl g.state0 55) s1) (s1 << 14),
      xor-xor_cancel (rotl g.state0 55) s1,
      rotl_9-rotl_55 g.state0 h.state0_word,
      xor-xor_cancel g.state1 g.state0,
    )

IsStuck-previous : (g : Generator) → IsStuck g → IsStuck (previous g)
unfolding previous rotl
IsStuck-previous g h = rw (h.0, h.1) (refl, refl)

-- A draw reaches the stuck state from the stuck state only.
c_random-IsStuck : (g : Generator) → IsWords g → IsStuck (c_random g).1 → IsStuck g
c_random-IsStuck g h stuck = rw (previous-c_random g h) at (IsStuck-previous (c_random g).1 stuck)

-- `n` calls of `c_random`: the outputs, in order, and the state left behind.
unfoldable pub draws : ℕ → Generator → List ℕ × Generator
draws zero g = ([], g)
draws (suc n) g = let (r, g') = c_random g in let (rest, last) = draws n g' in (r ∷ rest, last)

draws-IsWords : (n : ℕ) (g : Generator) → IsWords g → IsWords (draws n g).1
unfolding draws
draws-IsWords zero g h = h
draws-IsWords (suc n) g h = draws-IsWords n (c_random g).1 (c_random-IsWords g h)

draws-not-IsStuck : (n : ℕ) (g : Generator) → IsWords g → ¬ IsStuck g → ¬ IsStuck (draws n g).1
unfolding draws
draws-not-IsStuck zero g h free = free
draws-not-IsStuck (suc n) g h free =
    draws-not-IsStuck n (c_random g).1 (c_random-IsWords g h)
      (λ stuck. free (c_random-IsStuck g h stuck))

-- `n` draws can be taken back one by one.
unfoldable pub rewind : ℕ → Generator → Generator
rewind zero g = g
rewind (suc n) g = previous (rewind n g)

-- From a state of 64-bit words, any number of draws is undone by as many steps back.
pub rewind-draws : (n : ℕ) (g : Generator) → IsWords g → rewind n (draws n g).1 ≡ g
unfolding draws rewind
rewind-draws zero g h = refl
rewind-draws (suc n) g h =
    ap previous (rewind-draws n (c_random g).1 (c_random-IsWords g h)) ∙ previous-c_random g h

abbrev gamma : ℕ
gamma = 0x9E3779B97F4A7C15

-- What seeding leaves behind, whatever was there before.
c_seed_random_lem :
    (seed : ℕ) (g : Generator)
    → c_seed_random seed g ≡ record {
      x = u64 (u64 (seed + gamma) + gamma);
      state0 = scramble (u64 (seed + gamma));
      state1 = scramble (u64 (u64 (seed + gamma) + gamma));
    }
unfolding c_seed_random
c_seed_random_lem seed g = refl

c_seed_random-IsWords : (seed : ℕ) (g : Generator) → IsWords (c_seed_random seed g)
c_seed_random-IsWords seed g = rw (c_seed_random_lem seed g) (record {
  x_word = omega arith;
  state0_word = scramble-IsU64 _;
  state1_word = scramble-IsU64 _;
})

-- Two 64-bit seeds that leave the same first word of state, whatever the generator held before, are
-- one seed.
pub c_seed_random-injective :
    (s t : ℕ) (g h : Generator)
    → IsU64 s
    → IsU64 t
    → (c_seed_random s g).state0 ≡ (c_seed_random t h).state0
    → s ≡ t
unfolding c_seed_random
c_seed_random-injective s t g h ps pt e =
    omega
      (arith, scramble-injective (u64 (s + gamma)) (u64 (t + gamma)) (omega arith) (omega arith) e)

c_seed_random-not-IsStuck : (seed : ℕ) (g : Generator) → ¬ IsStuck (c_seed_random seed g)
unfolding c_seed_random
c_seed_random-not-IsStuck seed g (e0, e1) =
    let same =
      scramble-injective (u64 (seed + gamma)) (u64 (u64 (seed + gamma) + gamma)) (omega arith)
        (omega arith) (e0 ∙ sym e1) in
    absurd (omega arith)

-- After `c_seed_random` with any seed, whatever the generator held before, and any number of draws:
-- the words of the state have 64 bits and are not both zero.
pub draws-c_seed_random-IsWords :
    (n seed : ℕ) (g : Generator)
    → let last = (draws n (c_seed_random seed g)).1 in IsWords last × ¬ IsStuck last
draws-c_seed_random-IsWords n seed g = (
  draws-IsWords n _ (c_seed_random-IsWords seed g),
  draws-not-IsStuck n _ (c_seed_random-IsWords seed g) (c_seed_random-not-IsStuck seed g),
)

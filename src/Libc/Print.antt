-- ===== src/Libc/Print.antt =====
-- The printed form of a number is a numeral of that number, in every base from 2 to 36.
use feline.Prelude.{
  ℕ, zero, suc, ◌+◌, ◌*◌, ◌/◌, ◌%◌, ◌^◌, ◌≤◌, ◌<◌, ◌≡◌, refl, ap, subst, ◌∙◌, arith, false,
  Bool-cases, inl, inr, ◌==◌, if◌then◌else◌, if-Both, List, [], ◌∷◌, ◌++◌, length, length-append,
  length-replicate, replicate, ◌-◌, true,
}
use native.Mathlib.Nat.{pow-succ', div-add-mod', div-lt_iff_lt-mul, mod-lt}
use feline.Libc.{digit_of, digit_char, emit_digits, print_unsigned, print_decimal, print_padded}
use feline.Libc.Scan.{AreDigits, numeral_value}

digit_of-digit_char : (d : ℕ) → d < 36 → digit_of (digit_char d) ≡ d
digit_of-digit_char d h = ground arith

div-lt : (f n base : ℕ) → 2 ≤ base → n < 2 ^ suc f → n / base < 2 ^ f
div-lt f n base two h =
    let wide : 2 ^ f * 2 ≤ 2 ^ f * base = grind arith in
    (div-lt_iff_lt-mul {k = base} {x = n} {y = 2 ^ f} (omega arith)).1
      (omega (arith, pow-succ' 2 f))

abbrev pub Spells : ℕ → ℕ → List ℕ → Type 0
Spells base n ds = AreDigits base ds × (numeral_value base 0 ds ≡ n)

emit_digits_lem :
    (fuel base n : ℕ) (out : List ℕ)
    → 2 ≤ base
    → base ≤ 36
    → n < 2 ^ fuel
    → AreDigits base out
    → Spells base (numeral_value base n out) (emit_digits fuel base n out)
unfolding emit_digits
emit_digits_lem zero base n out lo hi small digits =
    (digits, ap (λ t. numeral_value base t out) (omega arith))
emit_digits_lem (suc fuel) base n out lo hi small digits = elim (Bool-cases (n == 0)) [
  | inl done ↦ rw done (digits, ap (λ t. numeral_value base t out) (ground arith))
  | inr more ↦
      let last : digit_of (digit_char (n % base)) ≡ n % base =
        digit_of-digit_char (n % base) (omega (arith, mod-lt n {m = base} (omega arith))) in
      let value : n / base * base + digit_of (digit_char (n % base)) ≡ n =
        omega (arith, last, div-add-mod' n base) in
      let rest =
        emit_digits_lem fuel base (n / base) (digit_char (n % base) ∷ out) lo hi
          (div-lt fuel n base lo small)
          (omega (arith, last, mod-lt n {m = base} (omega arith)), digits) in
      rw more (rest.0, rest.1 ∙ ap (λ t. numeral_value base t out) value)
]

emit_digits-ne-nil :
    (fuel base n d : ℕ) (out : List ℕ)
    → (c : ℕ) × (ds : List ℕ) × (emit_digits fuel base n (d ∷ out) ≡ c ∷ ds)
unfolding emit_digits
emit_digits-ne-nil zero base n d out = (d, out, refl)
emit_digits-ne-nil (suc fuel) base n d out = elim (Bool-cases (n == 0)) [
  | inl done ↦ rw done (d, out, refl)
  | inr more ↦ rw more (emit_digits-ne-nil fuel base (n / base) (digit_char (n % base)) (d ∷ out))
]

emit_digits_nonzero :
    (fuel base n : ℕ)
    → (n == 0) ≡ false
    → (c : ℕ) × (ds : List ℕ) × (emit_digits (suc fuel) base n [] ≡ c ∷ ds)
unfolding emit_digits
emit_digits_nonzero fuel base n more =
    rw more (emit_digits-ne-nil fuel base (n / base) (digit_char (n % base)) [])

-- A printed 64-bit number is one or more digits that spell it.
pub print_unsigned-Spells :
    (base n : ℕ)
    → 2 ≤ base
    → base ≤ 36
    → n < 2 ^ 64
    → (c : ℕ) × (ds : List ℕ) × (print_unsigned base n ≡ c ∷ ds) × Spells base n (c ∷ ds)
unfolding print_unsigned
print_unsigned-Spells base n lo hi fits = elim (Bool-cases (n == 0)) [
  | inl none ↦
      (b'0', [], ap (λ b. if b then b'0' ∷ [] else emit_digits 64 base n []) none, ground arith)
  | inr some ↦
      let (c, ds, first) = emit_digits_nonzero 63 base n some in
      let spelled = emit_digits_lem 64 base n [] lo hi fits tt in
      (
        c,
        ds,
        ap (λ b. if b then b'0' ∷ [] else emit_digits 64 base n []) some ∙ first,
        subst (Spells base n) first spelled,
      )
]

emit_digits-length :
    (k fuel n : ℕ) (out : List ℕ) → n < 10 ^ k → length (emit_digits fuel 10 n out) ≤ k + length out
unfolding emit_digits
emit_digits-length k zero n out small = omega arith
emit_digits-length zero (suc fuel) n out small =
    let none : (n == 0) ≡ true = ground arith in rw (emit_digits, none) (omega arith)
emit_digits-length (suc k) (suc fuel) n out small = elim (Bool-cases (n == 0)) [
  | inl done ↦ rw (emit_digits, done) (omega arith)
  | inr more ↦
      let shorter =
        emit_digits-length k fuel (n / 10) (digit_char (n % 10) ∷ out)
          (omega (arith, small, pow-succ' 10 k)) in
      rw (emit_digits, more) (omega (arith, shorter))
]

print_unsigned-length : (k n : ℕ) → 1 ≤ k → n < 10 ^ k → length (print_unsigned 10 n) ≤ k
unfolding print_unsigned
print_unsigned-length k n one small =
    let digits = emit_digits 64 10 n [] in
    let zero_short : 1 ≤ k + 0 = omega arith in
    let both : length (print_unsigned 10 n) ≤ k + 0 =
      if-Both (λ (s : List ℕ). length s ≤ k + 0) (n == 0) {a = b'0' ∷ []} {b = digits} zero_short
        (emit_digits-length k 64 n [] small) in
    let e : k + 0 ≡ k = omega arith in subst (λ j. length (print_unsigned 10 n) ≤ j) e both

-- The digits of a number that is not negative, with zeros in front.
print_padded_lem :
    (width n : ℕ)
    → print_padded width n
      ≡ replicate (width - length (print_unsigned 10 n)) b'0' ++ print_unsigned 10 n
unfolding print_padded print_decimal
print_padded_lem width n = refl

-- A number of at most k digits, padded to w digits with w at most k, has between w and k digits.
pub print_padded-length :
    (w k n : ℕ)
    → 1 ≤ k
    → n < 10 ^ k
    → w ≤ k
    → (w ≤ length (print_padded w n)) × (length (print_padded w n) ≤ k)
print_padded-length w k n one small wide =
    let s = print_unsigned 10 n in
    let short = print_unsigned-length k n one small in
    let zeros = w - length s in
    let sum : length (print_padded w n) ≡ zeros + length s =
      ap length (print_padded_lem w n)
      ∙ length-append (replicate zeros b'0') s
      ∙ ap (λ i. i + length s) (length-replicate zeros b'0') in
    (omega (arith, sum, short), omega (arith, sum, short))

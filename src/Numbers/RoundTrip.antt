-- ===== src/Numbers/RoundTrip.antt =====
-- `c_fixnum_to_base` and `c_string_to_integer` against one another.
use feline.Prelude.{
  ℕ, zero, suc, ◌^◌, ◌≤◌, ◌<◌, ◌≡◌, ◌⊎◌, inl, inr, refl, ap, sym, subst, ◌∙◌, arith, false, List,
  [], ◌∷◌, ◌++◌, length, ℤ, pos, negsuc, neg_ℕ, eqb_ℤ, take-all, if◌then◌else◌, ◌≤ℤ◌, ◌<ℤ◌,
}
use feline.Cell.{IsInt64, IsFixnum, make_fixnum, f_value, to_word}
use feline.Heap.{Heap, Allocator, Outcome, done}
use feline.Libc.{print_decimal, print_hex, snprintf}
use feline.Libc.Scan.{AreDigits, numeral_value, Sign, unsigned, minus, sign_text}
use feline.Libc.Print.{print_unsigned-Spells}
use feline.Numbers.{Floats, c_string_to_integer, c_fixnum_to_base}
use feline.Numbers.Meaning.{integer, Returns, Reads}
use feline.Numbers.Text.{signed_value, c_string_to_integer-numeral}

-- A text is a numeral of the given base.
pub record IsNumeral (base : ℕ) (v : ℤ) (text : List ℕ) : Type 0 where
  pub sign : Sign
  pub first : ℕ
  pub others : List ℕ
  pub digits : AreDigits base (first ∷ others)
  pub spelled : text ≡ sign_text sign ++ first ∷ others
  pub value : v ≡ signed_value sign (numeral_value base 0 (first ∷ others))

negsuc-neg_ℕ : (n : ℕ) → negsuc n ≡ neg_ℕ (suc n)
negsuc-neg_ℕ n = ground arith

to_word-lt : (n : ℤ) → to_word n < 2 ^ 64
to_word-lt (pos n) = omega arith
to_word-lt (negsuc n) = omega arith

pub print_decimal-IsNumeral : (n : ℤ) → IsInt64 n → IsNumeral 10 n (print_decimal n)
unfolding print_decimal
print_decimal-IsNumeral (pos n) fits =
    let (c, ds, e, (digits, value)) =
      print_unsigned-Spells 10 n (omega arith) (omega arith) (omega arith) in
    record {
      sign = unsigned;
      first = c;
      others = ds;
      digits = digits;
      spelled = e;
      value = ap pos (sym value);
    }
print_decimal-IsNumeral (negsuc n) fits =
    let (c, ds, e, (digits, value)) =
      print_unsigned-Spells 10 (suc n) (omega arith) (omega arith) (omega arith) in
    record {
      sign = minus;
      first = c;
      others = ds;
      digits = digits;
      spelled = ap (λ t. b'-' ∷ t) e;
      value = negsuc-neg_ℕ n ∙ ap neg_ℕ (sym value);
    }

print_hex-IsNumeral : (n : ℤ) → IsNumeral 16 (pos (to_word n)) (print_hex n)
unfolding print_hex
print_hex-IsNumeral n =
    let (c, ds, e, (digits, value)) =
      print_unsigned-Spells 16 (to_word n) (omega arith) (omega arith) (to_word-lt n) in
    record {
      sign = unsigned;
      first = c;
      others = ds;
      digits = digits;
      spelled = e;
      value = ap pos (sym value);
    }

-- The pattern of a number that is not negative is that number.
pattern_nonneg : (n : ℤ) → IsInt64 n → pos 0 ≤ℤ n → pos (to_word n) ≡ n
pattern_nonneg (pos n) fits h = ground arith
pattern_nonneg (negsuc n) fits h = absurd (omega arith)

pattern-IsInt64 : (n : ℤ) → IsInt64 n → pos 0 ≤ℤ n → IsInt64 (pos (to_word n))
pattern-IsInt64 (pos n) fits h = omega arith
pattern-IsInt64 (negsuc n) fits h = absurd (omega arith)

-- A buffer with room for the text and its NUL.
snprintf_fits :
    (size : ℕ) (text : List ℕ)
    → length text < size
    → snprintf size text ≡ (text ++ 0 ∷ [], length text)
snprintf_fits zero text h = absurd (omega arith)
snprintf_fits (suc room) text h =
    ap (λ t. (t ++ 0 ∷ [], length text)) (take-all room text (omega arith))

-- `c_fixnum_to_base` as text, for the two prints that it chooses between.
pub to_base_decimal :
    (n base : ℤ) (size : ℕ)
    → eqb_ℤ base (pos 16) ≡ false
    → c_fixnum_to_base n base size ≡ snprintf size (print_decimal n)
unfolding c_fixnum_to_base
to_base_decimal n base size h =
    ap (λ b. if b then snprintf size (print_hex n) else snprintf size (print_decimal n)) h

to_base_hex : (n : ℤ) (size : ℕ) → c_fixnum_to_base n (pos 16) size ≡ snprintf size (print_hex n)
unfolding c_fixnum_to_base
to_base_hex n size = refl

snprintf-length : (size : ℕ) (text : List ℕ) → (snprintf size text).1 ≡ length text
snprintf-length zero text = refl
snprintf-length (suc room) text = refl

-- A print with room in the buffer leaves the whole text there.
pub printed_whole :
    (size : ℕ) (text : List ℕ) (result : List ℕ × ℕ)
    → result ≡ snprintf size text
    → result.1 < size
    → result ≡ (text ++ 0 ∷ [], length text)
printed_whole size text result e room =
    e
    ∙ snprintf_fits size text
        (omega (arith, snprintf-length size text, ap (λ (t : List ℕ × ℕ). t.1) e))

module _ (fl : Floats) (al : Allocator fl.F) where
  open fl use {F}

  pub exactly :
      (n : ℤ)
      → IsInt64 n
      → (h : Heap F) (other result : Outcome F) → Reads fl al h n other result
      → Returns fl al h (integer n) result × ((¬ IsFixnum n) ⊎ (result ≡ done (make_fixnum n) h))
  exactly n fits h other result (inl (small, direct, returns)) = (returns, inr direct)
  exactly n fits h other result (inr (inl (big, fits', returns))) = (returns, inl big)
  exactly n fits h other result (inr (inr (huge, refused))) = absurd (huge fits)

  by_sign :
      (n : ℤ)
      → IsInt64 n
      → (h : Heap F) (result : Outcome F) → Reads fl al h (pos (to_word n)) (done f_value h) result
      → ((pos 0 ≤ℤ n) × Returns fl al h (integer n) result)
        ⊎ ((n <ℤ pos 0) × (result ≡ done f_value h))
  by_sign (pos n) fits h result read =
      let same = pattern_nonneg (pos n) fits (omega arith) in
      let fits' = pattern-IsInt64 (pos n) fits (omega arith) in
      inl (
        omega arith,
        subst (λ t. Returns fl al h (integer t) result) same
            (exactly (pos (to_word (pos n))) fits' h (done f_value h) result read).0,
      )
  by_sign (negsuc n) fits h result (inl (small, direct, returns)) = absurd (omega arith)
  by_sign (negsuc n) fits h result (inr (inl (big, fits', returns))) = absurd (omega arith)
  by_sign (negsuc n) fits h result (inr (inr (huge, refused))) = inr (omega arith, refused)

  read_numeral :
      (base : ℕ) (v : ℤ) (text : List ℕ) (h : Heap F)
      → 2 ≤ base
      → base ≤ 36
      → IsNumeral base v text
      → Reads fl al h v
          (done f_value h)
          (c_string_to_integer fl al (text ++ 0 ∷ []) (length text) base h)
  read_numeral base v text h lo hi t =
      rw (t.value, t.spelled)
        (c_string_to_integer-numeral fl al base t.sign t.first t.others [] h lo hi t.digits)

  -- A 64-bit integer printed in decimal, into a buffer with room for the text and its NUL, reads back as
  -- that integer: as the fixnum itself, with nothing allocated, if it fits one; of the others, reading faults
  -- where `malloc` is out of memory. `c_fixnum_to_base` prints in decimal in every base but 16.
  pub c_string_to_integer-c_fixnum_to_base :
      (n base : ℤ) (size : ℕ) (h : Heap F)
      → IsInt64 n
      → eqb_ℤ base (pos 16) ≡ false
      → (c_fixnum_to_base n base size).1 < size
      → let (text, len) = c_fixnum_to_base n base size in
        let result = c_string_to_integer fl al text len 10 h in
        Returns fl al h (integer n) result × ((¬ IsFixnum n) ⊎ (result ≡ done (make_fixnum n) h))
  c_string_to_integer-c_fixnum_to_base n base size h fits other room =
      let text = print_decimal n in
      let whole =
        printed_whole size text (c_fixnum_to_base n base size) (to_base_decimal n base size other)
          room in
      let read =
        read_numeral 10 n text h (omega arith) (omega arith) (print_decimal-IsNumeral n fits) in
      rw whole (
        exactly n fits h (done f_value h)
          (c_string_to_integer fl al (text ++ 0 ∷ []) (length text) 10 h) read)

  -- A 64-bit integer printed in base 16, into a buffer with room for the text and its NUL, is the 64-bit
  -- pattern of the number: a number that is not negative reads back in base 16 as a cell that stands for
  -- it, and the text of a negative one is refused with F_VALUE and an unchanged heap.
  pub c_string_to_integer-c_fixnum_to_base_hex :
      (n : ℤ) (size : ℕ) (h : Heap F)
      → IsInt64 n
      → (c_fixnum_to_base n (pos 16) size).1 < size
      → let (text, len) = c_fixnum_to_base n (pos 16) size in
        let result = c_string_to_integer fl al text len 16 h in
        ((pos 0 ≤ℤ n) × Returns fl al h (integer n) result)
        ⊎ ((n <ℤ pos 0) × (result ≡ done f_value h))
  c_string_to_integer-c_fixnum_to_base_hex n size h fits room =
      let text = print_hex n in
      let whole =
        printed_whole size text (c_fixnum_to_base n (pos 16) size) (to_base_hex n size) room in
      let result = c_string_to_integer fl al (text ++ 0 ∷ []) (length text) 16 h in
      let read =
        read_numeral 16 (pos (to_word n)) text h (omega arith) (omega arith)
          (print_hex-IsNumeral n) in
      rw whole (by_sign n fits h result read)

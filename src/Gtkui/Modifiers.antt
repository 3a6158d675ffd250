-- ===== src/Gtkui/Modifiers.antt =====
-- The codes that the key handlers send, and the keys that they do not send.
use feline.Prelude.{
  ℕ, ◌+◌, ◌*◌, ◌^◌, ◌<◌, ◌≡◌, ◌⊎◌, inl, inr, refl, arith, Bool, true, false, Bool-cases,
  if◌then◌else◌, ◌||◌, [], ◌∷◌, ◌==◌,
}
use feline.Word.Or.{or-disjoint}
use feline.Gtkui.{Gtkui, perform}
use feline.Gtkui.Calls.{
  frame, minibuffer, queue_draw, send_textview_keydown, send_minibuffer_keydown,
}
use feline.Gtkui.Keys.{
  gdk_shift_mask, gdk_control_mask, gdk_mod1_mask, is_down, add_flag, with_modifiers,
  gtkui__textview_keydown, gtkui__textview_key_press, on_minibuffer_key_press, key_shift_l,
  key_shift_r, key_control_l, key_control_r, key_alt_l, key_alt_r,
}

abbrev pub bit : Bool → ℕ
bit b = if b then 1 else 0

add_flag_lem :
    (down : Bool) (k keyval : ℕ)
    → keyval < 2 ^ k
    → add_flag down k keyval ≡ keyval + bit down * 2 ^ k
unfolding add_flag
add_flag_lem true k keyval fits = omega (arith, or-disjoint k 1 keyval fits)
add_flag_lem false k keyval fits = omega arith

bit-bound : (b : Bool) → bit b < 2
bit-bound true = omega arith
bit-bound false = omega arith

bit-injective : (a b : Bool) → bit a ≡ bit b → a ≡ b
bit-injective true true e = refl
bit-injective true false e = absurd (omega arith)
bit-injective false true e = absurd (omega arith)
bit-injective false false e = refl

-- The three flags on a key value below 2 ^ 16, as both front ends set them.
abbrev pub flagged : ℕ → Bool → Bool → Bool → ℕ
flagged keyval alt ctrl shift = add_flag shift 18 (add_flag ctrl 17 (add_flag alt 16 keyval))

pub flagged_lem :
    (keyval : ℕ) (alt ctrl shift : Bool)
    → keyval < 2 ^ 16
    → flagged keyval alt ctrl shift
      ≡ keyval + bit alt * 2 ^ 16 + bit ctrl * 2 ^ 17 + bit shift * 2 ^ 18
flagged_lem keyval alt ctrl shift fits =
    let k1 = add_flag alt 16 keyval in
    let k2 = add_flag ctrl 17 k1 in
    let e1 : k1 ≡ keyval + bit alt * 2 ^ 16 = add_flag_lem alt 16 keyval fits in
    let f1 : k1 < 2 ^ 17 = omega (arith, e1, bit-bound alt) in
    let e2 : k2 ≡ k1 + bit ctrl * 2 ^ 17 = add_flag_lem ctrl 17 k1 f1 in
    let f2 : k2 < 2 ^ 18 = omega (arith, e2, f1, bit-bound ctrl) in
    omega (arith, e1, e2, add_flag_lem shift 18 k2 f2)

pub flagged-injective :
    (k1 k2 : ℕ) (alt1 ctrl1 shift1 alt2 ctrl2 shift2 : Bool)
    → k1 < 2 ^ 16
    → k2 < 2 ^ 16
    → flagged k1 alt1 ctrl1 shift1 ≡ flagged k2 alt2 ctrl2 shift2
    → (k1 ≡ k2) × (alt1 ≡ alt2) × (ctrl1 ≡ ctrl2) × (shift1 ≡ shift2)
flagged-injective k1 k2 alt1 ctrl1 shift1 alt2 ctrl2 shift2 h1 h2 same =
    let e1 = flagged_lem k1 alt1 ctrl1 shift1 h1 in
    let e2 = flagged_lem k2 alt2 ctrl2 shift2 h2 in
    let a1 = bit-bound alt1 in
    let a2 = bit-bound alt2 in
    let c1 = bit-bound ctrl1 in
    let c2 = bit-bound ctrl2 in
    (
      omega (arith, e1, e2, same, a1, a2, c1, c2),
      bit-injective _ _ (omega (arith, e1, e2, same, a1, a2, c1, c2)),
      bit-injective _ _ (omega (arith, e1, e2, same, a1, a2, c1, c2)),
      bit-injective _ _ (omega (arith, e1, e2, same, a1, a2, c1, c2)),
    )

-- Two key values below 2 ^ 16 have the same code only if they are the same key under the same Alt, Ctrl and
-- Shift.
pub with_modifiers-injective :
    (k1 k2 s1 s2 : ℕ)
    → k1 < 2 ^ 16
    → k2 < 2 ^ 16
    → with_modifiers k1 s1 ≡ with_modifiers k2 s2
    → (k1 ≡ k2)
      × (is_down s1 gdk_mod1_mask ≡ is_down s2 gdk_mod1_mask)
      × (is_down s1 gdk_control_mask ≡ is_down s2 gdk_control_mask)
      × (is_down s1 gdk_shift_mask ≡ is_down s2 gdk_shift_mask)
unfolding with_modifiers
with_modifiers-injective k1 k2 s1 s2 h1 h2 same = flagged-injective k1 k2 _ _ _ _ _ _ h1 h2 same

abbrev pub is_control_or_alt : ℕ → Bool
is_control_or_alt keyval =
    ((keyval == key_control_l) || (keyval == key_control_r))
    || ((keyval == key_alt_l) || (keyval == key_alt_r))

abbrev pub is_shift : ℕ → Bool
is_shift keyval = (keyval == key_shift_l) || (keyval == key_shift_r)

-- The text view leaves a Control, Alt or Shift key alone: FALSE, and nothing changes. For every other key it
-- returns TRUE, sends the code and then asks for the frame to be drawn.
pub gtkui__textview_key_press_lem :
    (keyval state : ℕ) (g : Gtkui)
    → ((is_control_or_alt keyval || is_shift keyval) ≡ true)
        × (gtkui__textview_key_press keyval state g ≡ (false, g))
      ⊎ ((is_control_or_alt keyval || is_shift keyval) ≡ false)
        × (gtkui__textview_key_press keyval state g ≡ (
          true,
          perform (send_textview_keydown (with_modifiers keyval state) ∷ queue_draw frame ∷ []) g,
        ))
unfolding gtkui__textview_key_press gtkui__textview_keydown
gtkui__textview_key_press_lem keyval state g =
    elim (Bool-cases ((keyval == key_control_l) || (keyval == key_control_r))) [
      | inl c ↦ inl (rw c refl, rw c refl)
      | inr c ↦ elim (Bool-cases ((keyval == key_alt_l) || (keyval == key_alt_r))) [
        | inl a ↦ inl (rw (c, a) refl, rw (c, a) refl)
        | inr a ↦ elim (Bool-cases (is_shift keyval)) [
          | inl s ↦ inl (rw (c, a, s) refl, rw (c, a, s) refl)
          | inr s ↦ inr (rw (c, a, s) refl, rw (c, a, s) refl)
        ]
      ]
    ]

-- The minibuffer leaves a Control or Alt key alone: FALSE, and nothing changes. For every other key, a Shift
-- key included, it returns TRUE, sends the code and then asks for the minibuffer to be drawn.
pub on_minibuffer_key_press_lem :
    (keyval state : ℕ) (g : Gtkui)
    → (is_control_or_alt keyval ≡ true) × (on_minibuffer_key_press keyval state g ≡ (false, g))
      ⊎ (is_control_or_alt keyval ≡ false)
        × (on_minibuffer_key_press keyval state g ≡ (
          true,
          perform
              (send_minibuffer_keydown (with_modifiers keyval state) ∷ queue_draw minibuffer ∷ [])
              g,
        ))
unfolding on_minibuffer_key_press
on_minibuffer_key_press_lem keyval state g =
    elim (Bool-cases ((keyval == key_control_l) || (keyval == key_control_r))) [
      | inl c ↦ inl (rw c refl, rw c refl)
      | inr c ↦ elim (Bool-cases ((keyval == key_alt_l) || (keyval == key_alt_r))) [
        | inl a ↦ inl (rw (c, a) refl, rw (c, a) refl)
        | inr a ↦ inr (rw (c, a) refl, rw (c, a) refl)
      ]
    ]

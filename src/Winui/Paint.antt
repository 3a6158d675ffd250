-- ===== src/Winui/Paint.antt =====
-- Painting and sizing the text view in src/winui.c.
use feline.Prelude.{
  ℕ, suc, ◌+◌, ◌<◌, ◌≡◌, ◌⊎◌, inl, inr, refl, arith, Bool, true, false, Bool-cases, Option, none,
  some, List, [], ◌∷◌, if◌then◌else◌,
}
use feline.Gtkui.Layout.{Fits, quotient-Fits}
use feline.Winui.{Winui, perform, is_null}
use feline.Winui.Calls.{
  Call, begin_paint, end_paint, select_object, set_text_color, set_bk_color, wm_size,
}
use feline.Winui.Setup.{Answers}
use feline.Winui.Messages.{
  Events, hiword, loword, Returned, default_returned, textview_on_paint, minibuffer_on_paint,
  textview_on_size, winui__textview_wnd_proc, by_default,
}

-- A resource that is taken and given back: which calls take one, and which give one back.
pub record Resource : Type 0 where
  pub is_taken : Call → Bool
  pub is_given : Call → Bool

unfoldable pub count : (Call → Bool) → List Call → ℕ
count p [] = 0
count p (c ∷ cs) = let rest = count p cs in if p c then suc rest else rest

-- As many were given back as were taken, between two states.
abbrev pub IsBalanced : Resource → Winui → Winui → Type 0
IsBalanced r g g' =
    count r.is_taken g'.calls + count r.is_given g.calls
    ≡ count r.is_taken g.calls + count r.is_given g'.calls

abbrev pub begins : Call → Bool
begins (begin_paint hwnd) = true
begins _ = false

abbrev pub ends : Call → Bool
ends (end_paint hwnd) = true
ends _ = false

abbrev pub painting : Resource
painting = record { is_taken = begins; is_given = ends }

-- Where WM_SIZE leaves the text view of a size: faulted, where a character has no height or no width; else with
-- the most rows and columns that fit, and the message passed on.
abbrev pub IsSized : ℕ → Winui → Option (Returned × Winui) → Type 0
IsSized lparam g none = (g.char_height ≡ 0) ⊎ (g.char_width ≡ 0)
IsSized lparam g (some (returned, g')) =
    (returned ≡ default_returned)
    × Fits g'.textview_rows g.char_height (hiword lparam)
    × Fits g'.textview_columns g.char_width (loword lparam)

module _ (an : Answers) (ev : Events) where
  open ev use {textview_paint, minibuffer_paint}

  textview_on_size_cases :
      (lparam : ℕ) (g : Winui)
      → ((textview_on_size an ev lparam g ≡ none) × ((g.char_height ≡ 0) ⊎ (g.char_width ≡ 0)))
        ⊎ ((g' : Winui) × (textview_on_size an ev lparam g ≡ some g')
            × Fits g'.textview_rows g.char_height (hiword lparam)
            × Fits g'.textview_columns g.char_width (loword lparam))
  unfolding textview_on_size
  textview_on_size_cases lparam g = elim (Bool-cases (is_null g.char_height)) [
    | inl flat ↦ rw flat (inl (refl, inl (ground arith)))
    | inr high ↦ elim (Bool-cases (is_null g.char_width)) [
      | inl narrow ↦ rw (high, narrow) (inl (refl, inr (ground arith)))
      | inr wide ↦
          let above : 0 < g.char_height = ground arith in
          let beside : 0 < g.char_width = ground arith in
          rw (high, wide)
            (inr (
              _,
              refl,
              quotient-Fits (hiword lparam) _ above,
              quotient-Fits (loword lparam) _ beside,
            ))
    ]
  ]

  -- The size in the message decides how many rows and columns there are: the most that fit it. Where a character
  -- has no height or no width, and only there, the division faults.
  pub winui__textview_wnd_proc-IsSized :
      (hwnd wparam lparam : ℕ) (g : Winui)
      → IsSized lparam g (winui__textview_wnd_proc an ev hwnd wm_size wparam lparam g)
  unfolding winui__textview_wnd_proc by_default perform
  winui__textview_wnd_proc-IsSized hwnd wparam lparam g = elim (textview_on_size_cases lparam g) [
    | inl (faulted, zero_size) ↦ rw (faulted, winui__textview_wnd_proc) zero_size
    | inr (g', sized, rows, columns) ↦ rw (sized, winui__textview_wnd_proc) (refl, rows, columns)
  ]

  -- The state in which the Feline code paints.
  abbrev pub painted : ℕ → ℕ → ℕ → ℕ → Winui → Winui
  painted hwnd hdc fg bg g = record g {
    calls =
        set_bk_color hdc bg
        ∷ set_text_color hdc fg
        ∷ select_object hdc g.hfont_normal
        ∷ begin_paint hwnd
        ∷ g.calls;
  }

  -- Where the Feline code that paints ends each painting that it begins: so does WM_PAINT in both windows, and it
  -- leaves no context behind.
  pub wm_paint-IsBalanced :
      (hwnd : ℕ) (g : Winui)
      → ((h : Winui)
          → IsBalanced painting h (textview_paint h) × IsBalanced painting h (minibuffer_paint h))
      → let g1 = textview_on_paint an ev hwnd g in
        let g2 = minibuffer_on_paint an ev hwnd g in
        ((g1.hdc_textview ≡ 0) × IsBalanced painting g g1)
        × ((g2.hdc_minibuffer ≡ 0) × IsBalanced painting g g2)
  unfolding textview_on_paint minibuffer_on_paint perform count
  wm_paint-IsBalanced hwnd g paints =
      let hdc = ev.paint_dc g in
      let h1 =
        painted hwnd hdc g.rgb_textview_fg g.rgb_textview_bg (record g { hdc_textview = hdc }) in
      let h2 =
        painted hwnd hdc g.rgb_minibuffer_fg g.rgb_minibuffer_bg
          (record g { hdc_minibuffer = hdc }) in
      let e1 = (paints h1).0 in
      let e2 = (paints h2).1 in ((refl, omega (arith, e1)), (refl, omega (arith, e2)))

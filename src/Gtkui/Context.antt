-- ===== src/Gtkui/Context.antt =====
-- The cairo context of the text view: set while the widget is drawn, null at all other times.
use feline.Prelude.{
  ℕ, suc, ◌≡◌, ◌⊎◌, inl, inr, refl, ◌∙◌, sym, Bool, true, false, Bool-cases, Option-cases, ℤ,
  Option, none, some, List, [], ◌∷◌, ◌==◌, if◌then◌else◌, arith,
}
use feline.Gtkui.{Gtkui, perform}
use feline.Gtkui.Calls.{select_font_face, set_font_size, paint, textview, draw, Command, Call}
use feline.Gtkui.Text.{draw_all, gtkui__textview_text_out, gtkui__minibuffer_text_out}
use feline.Gtkui.Draw.{
  Toolkit, black, white, monospace, gtkui__textview_draw, gtkui__textview_draw_caret, measure,
}

abbrev pub is_null_draw : Call → Bool
is_null_draw (draw none c) = true
is_null_draw _ = false

-- How many calls of cairo are on a null context.
unfoldable pub null_draws : List Call → ℕ
null_draws [] = 0
null_draws (c ∷ cs) = let rest = null_draws cs in if is_null_draw c then suc rest else rest

draw_all-cr_textview :
    (cr : Option ℕ) (cs : List Command) (g : Gtkui) → (draw_all cr cs g).cr_textview ≡ g.cr_textview
unfolding draw_all perform
draw_all-cr_textview cr [] g = refl
draw_all-cr_textview cr (c ∷ cs) g =
    draw_all-cr_textview cr cs (record g { calls = draw cr c ∷ g.calls })

draw_all-char_width :
    (cr : Option ℕ) (cs : List Command) (g : Gtkui) → (draw_all cr cs g).char_width ≡ g.char_width
unfolding draw_all perform
draw_all-char_width cr [] g = refl
draw_all-char_width cr (c ∷ cs) g =
    draw_all-char_width cr cs (record g { calls = draw cr c ∷ g.calls })

draw_all-null_draws :
    (cr : ℕ) (cs : List Command) (g : Gtkui)
    → null_draws (draw_all (some cr) cs g).calls ≡ null_draws g.calls
unfolding draw_all perform null_draws
draw_all-null_draws cr [] g = refl
draw_all-null_draws cr (c ∷ cs) g =
    draw_all-null_draws cr cs (record g { calls = draw (some cr) c ∷ g.calls })

textview_text_out-null_draws :
    (column row : ℕ) (s : List ℕ) (g : Gtkui)
    → null_draws (gtkui__textview_text_out column row s g).calls ≡ null_draws g.calls
unfolding gtkui__textview_text_out perform null_draws
textview_text_out-null_draws column row s g = elim (Option-cases g.cr_textview) [
  | inl e ↦ rw (e, gtkui__textview_text_out) refl
  | inr (cr, e) ↦ elim (Bool-cases (g.rgb_textview_bg == 0)) [
    | inl plain ↦ rw (e, gtkui__textview_text_out, plain) (draw_all-null_draws cr _ g)
    | inr colored ↦
        rw (e, gtkui__textview_text_out, colored)
          (draw_all-null_draws cr _ _ ∙ draw_all-null_draws cr _ g)
  ]
]

minibuffer_text_out-null_draws :
    (x y : ℤ) (s : List ℕ) (g : Gtkui)
    → null_draws (gtkui__minibuffer_text_out x y s g).calls ≡ null_draws g.calls
unfolding gtkui__minibuffer_text_out perform null_draws
minibuffer_text_out-null_draws x y [] g = refl
minibuffer_text_out-null_draws x y (c ∷ s) g = elim (Option-cases g.cr_minibuffer) [
  | inl e ↦ rw (e, gtkui__minibuffer_text_out) refl
  | inr (cr, e) ↦ rw (e, gtkui__minibuffer_text_out) (draw_all-null_draws cr _ g)
]

-- Text that is written to the text view or to the minibuffer is never drawn on a null context, whatever the
-- state.
pub text_out-null_draws :
    (column row : ℕ) (x y : ℤ) (s : List ℕ) (g : Gtkui)
    → (null_draws (gtkui__textview_text_out column row s g).calls ≡ null_draws g.calls)
      × (null_draws (gtkui__minibuffer_text_out x y s g).calls ≡ null_draws g.calls)
text_out-null_draws column row x y s g =
    (textview_text_out-null_draws column row s g, minibuffer_text_out-null_draws x y s g)

module _ (tk : Toolkit) where
  open tk use {gtkui_textview_paint, font_extents, get_allocation, is_focus}

  caret-null_draws :
      (cr : ℕ) (g : Gtkui)
      → g.cr_textview ≡ some cr
      → null_draws (gtkui__textview_draw_caret tk g).calls ≡ null_draws g.calls
  unfolding gtkui__textview_draw_caret
  caret-null_draws cr g e = elim (Bool-cases (is_focus textview g)) [
    | inl focus ↦ rw (focus, e) (draw_all-null_draws cr _ _)
    | inr away ↦ rw away refl
  ]

  -- What painting may do: with the context set, it leaves it so and does not draw on a null one.
  abbrev pub IsPainter : Type 0
  IsPainter =
      (g : Gtkui) (cr : ℕ)
      → g.cr_textview ≡ some cr
      → ((gtkui_textview_paint g).cr_textview ≡ some cr)
        × (null_draws (gtkui_textview_paint g).calls ≡ null_draws g.calls)

  -- What the handler has done when the context is null again.
  abbrev pub IsDrawn : Gtkui → Option (Bool × Gtkui) → Type 0
  IsDrawn g result =
      (g' : Gtkui) × (result ≡ some (true, g'))
      × (g'.cr_textview ≡ none)
      × (null_draws g'.calls ≡ null_draws g.calls)

  painted_lem :
      (paints : IsPainter) (cr : ℕ) (g : Gtkui)
      → g.cr_textview ≡ some cr
      → let g3 = gtkui_textview_paint (draw_all (some cr) (black ∷ paint ∷ white ∷ []) g) in
        null_draws (gtkui__textview_draw_caret tk g3).calls ≡ null_draws g.calls
  painted_lem paints cr g e =
      let g2 = draw_all (some cr) (black ∷ paint ∷ white ∷ []) g in
      let (kept, same) = paints g2 cr (draw_all-cr_textview _ _ g ∙ e) in
      caret-null_draws cr _ kept ∙ same ∙ draw_all-null_draws cr _ g

  -- Where painting keeps to the context, drawing the text view returns TRUE with the context null again and
  -- nothing drawn on a null one; or the font has no width when it is first measured, and the division faults.
  pub gtkui__textview_draw-IsDrawn :
      (paints : IsPainter) (cr : ℕ) (g : Gtkui)
      → ((g.char_width ≡ 0) × (gtkui__textview_draw tk true cr g ≡ none))
        ⊎ IsDrawn g (gtkui__textview_draw tk true cr g)
  unfolding gtkui__textview_draw measure
  gtkui__textview_draw-IsDrawn paints cr g =
      let g0 : Gtkui = record g { cr_textview = some cr } in
      let header = select_font_face monospace ∷ set_font_size 14 ∷ [] in
      let g1 = draw_all (some cr) header g0 in
      let set : g1.cr_textview ≡ some cr = draw_all-cr_textview _ header g0 in
      let same : null_draws g1.calls ≡ null_draws g.calls = draw_all-null_draws cr header g0 in
      elim (Bool-cases (g1.char_width == 0)) [
        | inr known ↦ rw known (inr (_, refl, refl, painted_lem paints cr g1 set ∙ same))
        | inl unknown ↦ elim (Bool-cases ((font_extents g1).max_x_advance == 0)) [
          | inl flat ↦
              let narrow : g1.char_width ≡ 0 = ground arith in
              rw (unknown, flat)
                (inl (sym (draw_all-char_width (some cr) header g0) ∙ narrow, refl))
          | inr wide ↦ rw (unknown, wide) (inr (_, refl, refl, painted_lem paints cr _ set ∙ same))
        ]
      ]

-- ===== src/Gtkui/Session/Drawn.antt =====
-- The drawing handlers of src/gtkui.c between two signals: they fit the rows and the columns to the font that they
-- measure, and end with null contexts.
use feline.Prelude.{
  ℕ, ◌/◌, ◌+◌, ◌<◌, ◌≡◌, inl, inr, refl, sym, ◌∙◌, ap, subst, arith, Bool, true, false, Bool-cases,
  Option, none, some, [], ◌∷◌, ◌==◌,
}
use feline.Gtkui.{Gtkui, Allocation}
use feline.Gtkui.Calls.{Widget, textview, minibuffer, paint, select_font_face, set_font_size}
use feline.Gtkui.Text.{draw_all}
use feline.Gtkui.Draw.{
  Toolkit, black, white, monospace, measure, gtkui__textview_draw, gtkui__textview_draw_caret,
  gtkui__minibuffer_draw, gtkui__minibuffer_draw_caret,
}
use feline.Gtkui.Layout.{quotient-Fits}
use feline.Gtkui.Session.{Event, textview_draw, dispatch}
use feline.Gtkui.Session.Kept.{metrics, IsFitted, IsSettled, Keeps, draw_all-Keeps, Keeps-trans}

module _ (tk : Allocation → Toolkit) (is_widget : Widget → Bool)
    (feline : Event → Gtkui → Gtkui) where
  -- The Feline code, called to paint or sent an event, sets only variables of its own side and those that the setters of
  -- src/gtkui.c set; the text view has the allocation that it was told; and the font has a width.
  pub record SessionLaws : Type 0 where
    pub textview_paint-Keeps : (a : Allocation) → Keeps ((tk a).gtkui_textview_paint)
    pub minibuffer_paint-Keeps : (a : Allocation) → Keeps ((tk a).gtkui_minibuffer_paint)
    pub feline-Keeps : (e : Event) → Keeps (feline e)
    pub allocation_lem : (a : Allocation) (g : Gtkui) → (tk a).get_allocation g ≡ a
    pub font_width : (a : Allocation) (g : Gtkui) → 0 < ((tk a).font_extents g).max_x_advance

  module _ (laws : SessionLaws) where
    open laws use {
      textview_paint-Keeps, minibuffer_paint-Keeps, feline-Keeps, allocation_lem, font_width,
    }

    caret-Keeps : (a : Allocation) → Keeps (gtkui__textview_draw_caret (tk a))
    unfolding gtkui__textview_draw_caret
    caret-Keeps a g = elim (Bool-cases ((tk a).is_focus textview g)) [
      | inl focus ↦ rw focus (draw_all-Keeps g.cr_textview _ g)
      | inr away ↦ rw away (refl, refl)
    ]

    minibuffer_caret-Keeps : (a : Allocation) → Keeps (gtkui__minibuffer_draw_caret (tk a))
    unfolding gtkui__minibuffer_draw_caret
    minibuffer_caret-Keeps a g = elim (Bool-cases ((tk a).is_focus minibuffer g)) [
      | inl focus ↦ rw focus (draw_all-Keeps g.cr_minibuffer _ g)
      | inr away ↦ rw away (refl, refl)
    ]

    -- Painting, on the sizes that are known.
    abbrev painted : Allocation → ℕ → Gtkui → Gtkui
    painted a cr g =
        gtkui__textview_draw_caret (tk a)
          ((tk a).gtkui_textview_paint (draw_all (some cr) (black ∷ paint ∷ white ∷ []) g))

    painted-Keeps : (a : Allocation) (cr : ℕ) → Keeps (painted a cr)
    painted-Keeps a cr =
        Keeps-trans (draw_all (some cr) (black ∷ paint ∷ white ∷ []))
          (λ g. gtkui__textview_draw_caret (tk a) ((tk a).gtkui_textview_paint g))
          (draw_all-Keeps (some cr) (black ∷ paint ∷ white ∷ []))
          (Keeps-trans ((tk a).gtkui_textview_paint) (gtkui__textview_draw_caret (tk a))
            (textview_paint-Keeps a) (caret-Keeps a))

    -- The sizes after the font is measured.
    abbrev measured : Allocation → Gtkui → Gtkui
    measured a g =
        let fe = (tk a).font_extents g in
        let allocation = (tk a).get_allocation g in
        record g {
          ascent = fe.ascent;
          descent = fe.descent;
          char_width = fe.max_x_advance;
          char_height = fe.ascent + fe.descent + 1;
          textview_rows = allocation.height / (fe.ascent + fe.descent + 1);
          textview_columns = allocation.width / fe.max_x_advance;
        }

    measure-measured :
        (a : Allocation) (g : Gtkui)
        → measure ((tk a).font_extents g) ((tk a).get_allocation g) g ≡ some (measured a g)
    unfolding measure
    measure-measured a g =
        let wide : (((tk a).font_extents g).max_x_advance == 0) ≡ false =
          ground (arith, font_width a g) in
        rw wide refl

    measured-IsFitted : (a : Allocation) (g : Gtkui) → IsFitted a (metrics (measured a g))
    measured-IsFitted a g =
        let fe = (tk a).font_extents g in
        let wide = font_width a g in
        rw (allocation_lem a g) (
          inr (
            wide,
            refl,
            quotient-Fits a.height (fe.ascent + fe.descent + 1) (omega arith),
            quotient-Fits a.width fe.max_x_advance wide,
          ))

    -- What the handler does once the sizes are known: `g2` has the context of the text view.
    drawn-IsSettled :
        (a : Allocation) (cr : ℕ) (g2 : Gtkui)
        → IsFitted a (metrics g2)
        → g2.cr_minibuffer ≡ none
        → IsSettled a (record (painted a cr g2) { cr_textview = none })
    drawn-IsSettled a cr g2 fitted null =
        let (m, c) = painted-Keeps a cr g2 in
        (
          subst (IsFitted a) (sym m) fitted,
          ap (λ (q : Option ℕ × Option ℕ). (none, q.1)) c ∙ ap (λ (b : Option ℕ). (none, b)) null,
        )

    abbrev selected : ℕ → Gtkui → Gtkui
    selected cr g =
        draw_all (some cr) (select_font_face monospace ∷ set_font_size 14 ∷ [])
          (record g { cr_textview = some cr })

    draw_known :
        (a : Allocation) (cr : ℕ) (g : Gtkui)
        → ((selected cr g).char_width == 0) ≡ false
        → gtkui__textview_draw (tk a) true cr g
          ≡ some (true, record (painted a cr (selected cr g)) { cr_textview = none })
    unfolding gtkui__textview_draw
    draw_known a cr g known = rw known refl

    draw_measured :
        (a : Allocation) (cr : ℕ) (g : Gtkui)
        → ((selected cr g).char_width == 0) ≡ true
        → gtkui__textview_draw (tk a) true cr g
          ≡ some (true, record (painted a cr (measured a (selected cr g))) { cr_textview = none })
    unfolding gtkui__textview_draw
    draw_measured a cr g unknown = rw (unknown, measure-measured a (selected cr g)) refl

    pub draw-IsSettled :
        (a : Allocation) (cr : ℕ) (g : Gtkui)
        → IsSettled a g
        → (g' : Gtkui) × (dispatch tk is_widget feline a (textview_draw cr) g ≡ some g')
          × IsSettled a g'
    unfolding dispatch
    draw-IsSettled a cr g (fitted, null) =
        let g0 : Gtkui = record g { cr_textview = some cr } in
        let (m, c) =
          draw_all-Keeps (some cr) (select_font_face monospace ∷ set_font_size 14 ∷ []) g0 in
        let empty : (selected cr g).cr_minibuffer ≡ none =
          ap (λ (q : Option ℕ × Option ℕ). q.1) c ∙ ap (λ (q : Option ℕ × Option ℕ). q.1) null in
        elim (Bool-cases ((selected cr g).char_width == 0)) [
          | inr known ↦ (
            record (painted a cr (selected cr g)) { cr_textview = none },
            rw (dispatch, draw_known a cr g known) refl,
            drawn-IsSettled a cr (selected cr g) (subst (IsFitted a) (sym m) fitted) empty,
          )
          | inl unknown ↦ (
            record (painted a cr (measured a (selected cr g))) { cr_textview = none },
            rw (dispatch, draw_measured a cr g unknown) refl,
            drawn-IsSettled a cr (measured a (selected cr g)) (measured-IsFitted a (selected cr g))
                empty,
          )
        ]

    pub minibuffer_draw-IsSettled :
        (a : Allocation) (cr : ℕ) (g : Gtkui)
        → IsSettled a g
        → (g' : Gtkui) × (◌≡◌ {A = Option Gtkui}
            (some (gtkui__minibuffer_draw (tk a) cr g).1)
            (some g'))
          × IsSettled a g'
    unfolding gtkui__minibuffer_draw
    minibuffer_draw-IsSettled a cr g (fitted, null) =
        let header = select_font_face monospace ∷ set_font_size 14 ∷ black ∷ paint ∷ white ∷ [] in
        let g0 : Gtkui = record g { cr_minibuffer = some cr } in
        let (m, c) =
          Keeps-trans (draw_all (some cr) header)
            (λ g. gtkui__minibuffer_draw_caret (tk a) ((tk a).gtkui_minibuffer_paint g))
            (draw_all-Keeps (some cr) header)
            (Keeps-trans ((tk a).gtkui_minibuffer_paint) (gtkui__minibuffer_draw_caret (tk a))
              (minibuffer_paint-Keeps a) (minibuffer_caret-Keeps a))
            g0 in
        (
          (gtkui__minibuffer_draw (tk a) cr g).1,
          refl,
          (
            subst (IsFitted a) (sym m) fitted,
            ap (λ (q : Option ℕ × Option ℕ). (q.0, none)) c
                ∙ ap (λ (q : Option ℕ × Option ℕ). (q.0, none)) null,
          ),
        )

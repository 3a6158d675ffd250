-- ===== src/Winui/Session/Sized.antt =====
-- The parts of the window procedures of src/winui.c that set the sizes and the contexts.
use feline.Prelude.{
  ℕ, ◌/◌, ◌<◌, ◌≡◌, refl, sym, ◌∙◌, ap, arith, false, Bool-cases, Option, none, some, [], ◌∷◌, inl,
  inr,
}
use feline.Gtkui.Layout.{quotient-Fits}
use feline.Winui.{Winui, perform, is_null}
use feline.Winui.Calls.{begin_paint, select_object, set_text_color, set_bk_color}
use feline.Winui.Setup.{Answers, winui__create_font, take_stock_font}
use feline.Winui.Messages.{
  Events, hiword, loword, textview_on_paint, textview_on_size, minibuffer_on_paint,
}
use feline.Winui.Session.{Delivered}
use feline.Winui.Session.Kept.{IsSettled, Keeps, IsSettled-Same, if-Same}

module _ (an : Answers) (ev : Events) (feline : Delivered → Winui → Winui) where
  -- The Feline code, called to paint or sent a message, sets only variables of its own side and those that the setters of
  -- src/winui.c set; and a font has a width and a height.
  pub record SessionLaws : Type 0 where
    pub textview_paint-Keeps : Keeps ev.textview_paint
    pub minibuffer_paint-Keeps : Keeps ev.minibuffer_paint
    pub feline-Keeps : (d : Delivered) → Keeps (feline d)
    pub font_size : (g : Winui) → (0 < (an.metrics g).0) × (0 < (an.metrics g).1)

  module _ (laws : SessionLaws) where
    open laws use {textview_paint-Keeps, minibuffer_paint-Keeps, feline-Keeps, font_size}

    pub create_font-IsSettled :
        (size : Option ℕ) (hwnd : ℕ) (g : Winui)
        → IsSettled size g
        → IsSettled none (winui__create_font an hwnd g)
    unfolding winui__create_font take_stock_font perform
    create_font-IsSettled size hwnd g (wide, high, fits, null) =
        elim (Bool-cases (is_null (an.font g))) [
          | inl missing ↦ rw missing (wide, high, tt, null)
          | inr made ↦ rw made (
            (font_size _).0,
            (font_size _).1,
            tt,
            (if-Same _ g _ _ (refl, refl) (refl, refl)).1 ∙ null,
          )
        ]

    pub textview_on_paint-IsSettled :
        (size : Option ℕ) (hwnd : ℕ) (g : Winui)
        → IsSettled size g
        → IsSettled size (textview_on_paint an ev hwnd g)
    unfolding textview_on_paint perform
    textview_on_paint-IsSettled size hwnd g (wide, high, fits, null) =
        let hdc = ev.paint_dc g in
        let g1 =
          perform
            (begin_paint hwnd
              ∷ select_object hdc g.hfont_normal
              ∷ set_text_color hdc g.rgb_textview_fg
              ∷ set_bk_color hdc g.rgb_textview_bg
              ∷ [])
            (record g { hdc_textview = hdc }) in
        let (m, c) = textview_paint-Keeps g1 in
        IsSettled-Same size g (textview_on_paint an ev hwnd g)
          (m, ap (λ (q : ℕ × ℕ). (0, q.1)) c ∙ ap (λ (q : ℕ × ℕ). (0, q.1)) null ∙ sym null)
          (wide, high, fits, null)

    pub on_size-IsSettled :
        (size : Option ℕ) (lparam : ℕ) (g : Winui)
        → IsSettled size g
        → (g' : Winui) × (textview_on_size an ev lparam g ≡ some g') × IsSettled (some lparam) g'
    unfolding textview_on_size
    on_size-IsSettled size lparam g (wide, high, fits, null) =
        let h : is_null g.char_height ≡ false = ground arith in
        let w : is_null g.char_width ≡ false = ground arith in
        (
          record g {
            textview_rows = hiword lparam / g.char_height;
            textview_columns = loword lparam / g.char_width;
          },
          rw (h, w) refl,
          (
            wide,
            high,
            (
              quotient-Fits (hiword lparam) g.char_height high,
              quotient-Fits (loword lparam) g.char_width wide,
            ),
            null,
          ),
        )

    pub minibuffer_on_paint-IsSettled :
        (size : Option ℕ) (hwnd : ℕ) (g : Winui)
        → IsSettled size g
        → IsSettled size (minibuffer_on_paint an ev hwnd g)
    unfolding minibuffer_on_paint perform
    minibuffer_on_paint-IsSettled size hwnd g (wide, high, fits, null) =
        let hdc = ev.paint_dc g in
        let g1 =
          perform
            (begin_paint hwnd
              ∷ select_object hdc g.hfont_normal
              ∷ set_text_color hdc g.rgb_minibuffer_fg
              ∷ set_bk_color hdc g.rgb_minibuffer_bg
              ∷ [])
            (record g { hdc_minibuffer = hdc }) in
        let (m, c) = minibuffer_paint-Keeps g1 in
        IsSettled-Same size g (minibuffer_on_paint an ev hwnd g)
          (m, ap (λ (q : ℕ × ℕ). (q.0, 0)) c ∙ ap (λ (q : ℕ × ℕ). (q.0, 0)) null ∙ sym null)
          (wide, high, fits, null)

-- ===== src/Gtkui/Draw.antt =====
-- The draw handlers of src/gtkui.c. The Feline code that paints, and the answers of GTK and cairo to the
-- questions of the handlers, are parameters.
use feline.Prelude.{
  ℕ, ◌+◌, ◌*◌, ◌/◌, Bool, true, false, if◌then◌else◌, Option, none, some, List, [], ◌∷◌, ℤ, pos,
  negsuc, sub_ℕ, ◌==◌,
}
use feline.Gtkui.{Gtkui, Allocation}
use feline.Gtkui.Calls.{
  textview, minibuffer, paint, fill, set_source_rgb, rectangle, move_to, show_text,
  select_font_face, set_font_size, Widget, Command,
}
use feline.Gtkui.Text.{draw_all}

-- The product of an `int` of the Feline code and a size.
unfoldable pub scale : ℕ → ℤ → ℤ
scale n (pos k) = pos (n * k)
scale n (negsuc k) = sub_ℕ 0 (n * (k + 1))

unfoldable pub raise : ℤ → ℕ → ℤ
raise (pos k) n = pos (k + n)
raise (negsuc k) n = sub_ℕ n (k + 1)

-- A `cairo_font_extents_t` with the fractions cut off.
pub record FontExtents : Type 0 where
  pub ascent : ℕ
  pub descent : ℕ
  pub max_x_advance : ℕ

pub record Toolkit : Type 0 where
  pub gtkui_textview_paint : Gtkui → Gtkui
  pub gtkui_minibuffer_paint : Gtkui → Gtkui
  pub is_focus : Widget → Gtkui → Bool
  pub font_extents : Gtkui → FontExtents
  pub get_allocation : Gtkui → Allocation

-- "monospace"
abbrev pub monospace : List ℕ
monospace = 109 ∷ 111 ∷ 110 ∷ 111 ∷ 115 ∷ 112 ∷ 97 ∷ 99 ∷ 101 ∷ []

abbrev pub black : Command
black = set_source_rgb 0 0 0

abbrev pub white : Command
white = set_source_rgb 255 255 255

-- The sizes of a character cell and what fits the widget; `none` where the division by the width faults.
unfoldable pub measure : FontExtents → Allocation → Gtkui → Option Gtkui
measure fe allocation g =
    let height = fe.ascent + fe.descent + 1 in
    if fe.max_x_advance == 0
    then none
    else some (record g {
      ascent = fe.ascent;
      descent = fe.descent;
      char_width = fe.max_x_advance;
      char_height = height;
      textview_rows = allocation.height / height;
      textview_columns = allocation.width / fe.max_x_advance;
    })

unfoldable pub on_modeline_draw : ℕ → Gtkui → Bool × Gtkui
on_modeline_draw cr g = (
  true,
  draw_all (some cr)
      (select_font_face monospace
        ∷ move_to (pos 0) (pos 14)
        ∷ set_font_size 14
        ∷ white
        ∷ paint
        ∷ black
        ∷ show_text g.mode_line_text
        ∷ [])
      g,
)

module _ (tk : Toolkit) where
  open tk use {gtkui_textview_paint, gtkui_minibuffer_paint, is_focus, font_extents, get_allocation}

  unfoldable pub gtkui__textview_draw_caret : Gtkui → Gtkui
  gtkui__textview_draw_caret g =
      if is_focus textview g
      then draw_all g.cr_textview
          (white
            ∷ rectangle (scale g.char_width g.textview_caret_column)
                (raise (scale g.char_height g.textview_caret_row) g.descent) (pos 2)
                (pos g.char_height)
            ∷ fill
            ∷ [])
          g
      else g

  -- `is_textview` tells whether the widget is `textview`; the outer `none` is the fault of `measure`.
  unfoldable pub gtkui__textview_draw : Bool → ℕ → Gtkui → Option (Bool × Gtkui)
  gtkui__textview_draw is_textview cr g =
      if is_textview
      then (let g1 =
            draw_all (some cr) (select_font_face monospace ∷ set_font_size 14 ∷ [])
              (record g { cr_textview = some cr }) in
          let measured =
            if g1.char_width == 0
            then measure (font_extents g1) (get_allocation g1) g1
            else some g1 in
          elim measured [
            | none ↦ none
            | some g2 ↦
                let g3 =
                  gtkui_textview_paint (draw_all (some cr) (black ∷ paint ∷ white ∷ []) g2) in
                some (true, record (gtkui__textview_draw_caret g3) { cr_textview = none })
          ])
      else some (false, g)

  unfoldable pub gtkui__minibuffer_draw_caret : Gtkui → Gtkui
  gtkui__minibuffer_draw_caret g =
      if is_focus minibuffer g
      then draw_all g.cr_minibuffer
          (white
            ∷ rectangle (scale g.char_width g.minibuffer_caret_column) (pos 3) (pos 2)
                (pos g.char_height)
            ∷ fill
            ∷ [])
          g
      else g

  unfoldable pub gtkui__minibuffer_draw : ℕ → Gtkui → Bool × Gtkui
  gtkui__minibuffer_draw cr g =
      let g1 =
        draw_all (some cr)
          (select_font_face monospace ∷ set_font_size 14 ∷ black ∷ paint ∷ white ∷ [])
          (record g { cr_minibuffer = some cr }) in
      let g2 = gtkui__minibuffer_draw_caret (gtkui_minibuffer_paint g1) in
      (true, record g2 { cr_minibuffer = none })

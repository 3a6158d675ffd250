-- ===== src/Gtkui/Text.antt =====
-- The functions of src/gtkui.c that the Feline code calls while a widget is drawn.
use feline.Prelude.{
  ℕ, ◌+◌, ◌*◌, if◌then◌else◌, Option, none, some, List, [], ◌∷◌, ℤ, pos, length, ◌==◌, sub_ℕ,
}
use feline.Gtkui.{Gtkui, perform, rgb_red, rgb_green, rgb_blue}
use feline.Gtkui.Calls.{
  save, restore, clip, paint, set_source_rgb, rectangle, move_to, show_text, draw, print, Command,
}

-- Each command on the context given.
unfoldable pub draw_all : Option ℕ → List Command → Gtkui → Gtkui
unfolding perform
draw_all cr [] g = g
draw_all cr (c ∷ cs) g = draw_all cr cs (perform (draw cr c ∷ []) g)

abbrev pub source_of : ℕ → Command
source_of color = set_source_rgb (rgb_red color) (rgb_green color) (rgb_blue color)

-- "no cr\n"
abbrev pub no_cr : List ℕ
no_cr = 110 ∷ 111 ∷ 32 ∷ 99 ∷ 114 ∷ 10 ∷ []

unfoldable pub gtkui__textview_text_out : ℕ → ℕ → List ℕ → Gtkui → Gtkui
gtkui__textview_text_out column row s g =
    let x = column * g.char_width in
    let y = (row + 1) * g.char_height in
    elim g.cr_textview [
      | none ↦ perform (print no_cr ∷ []) g
      | some cr ↦
          let background =
            save
            ∷ source_of g.rgb_textview_bg
            ∷ rectangle (pos x) (sub_ℕ y g.ascent) (pos (g.char_width * length s))
                (pos g.char_height)
            ∷ clip
            ∷ paint
            ∷ restore
            ∷ [] in
          let g' = if g.rgb_textview_bg == 0 then g else draw_all (some cr) background g in
          draw_all (some cr)
            (source_of g'.rgb_textview_fg ∷ move_to (pos x) (pos y) ∷ show_text s ∷ []) g'
    ]

unfoldable pub gtkui__textview_clear_eol : ℕ → ℕ → Gtkui → Gtkui
gtkui__textview_clear_eol column row g =
    draw_all g.cr_textview
      (save
        ∷ source_of g.rgb_textview_bg
        ∷ rectangle (pos (column * g.char_width)) (sub_ℕ ((row + 1) * g.char_height) g.ascent)
            (pos (g.textview_columns * g.char_width)) (pos g.char_height)
        ∷ clip
        ∷ paint
        ∷ restore
        ∷ [])
      g

-- "gtkui__minibuffer_text_out no cr\n"
abbrev pub no_cr_minibuffer : List ℕ
no_cr_minibuffer =
    103 ∷ 116 ∷ 107 ∷ 117 ∷ 105 ∷ 95 ∷ 95 ∷ 109 ∷ 105 ∷ 110 ∷ 105 ∷ 98 ∷ 117 ∷ 102 ∷ 102 ∷ 101 ∷ 114
    ∷ 95 ∷ 116 ∷ 101 ∷ 120 ∷ 116 ∷ 95 ∷ 111 ∷ 117 ∷ 116 ∷ 32 ∷ no_cr

unfoldable pub gtkui__minibuffer_text_out : ℤ → ℤ → List ℕ → Gtkui → Gtkui
gtkui__minibuffer_text_out x y [] g = g
gtkui__minibuffer_text_out x y (c ∷ s) g = elim g.cr_minibuffer [
  | none ↦ perform (print no_cr_minibuffer ∷ []) g
  | some cr ↦ draw_all (some cr) (move_to x y ∷ show_text (c ∷ s) ∷ []) g
]

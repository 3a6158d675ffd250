-- ===== src/Winui/Text.antt =====
-- Writing text in src/winui.c: while a window is painted, on its context; else on one that is asked for and
-- given back. `get_dc` and `solid_brush` are the handles that GetDC and CreateSolidBrush return.
use feline.Prelude.{ℕ, ◌*◌, if◌then◌else◌, List, [], ◌∷◌, ℤ, pos, ◌==◌, ◌+ℤ◌, scale_ℤ}
use feline.Winui.{Winui, perform, is_null}
use feline.Winui.Calls.{
  Rect, get_dc, release_dc, select_object, set_text_color, set_bk_color, hide_caret, show_caret,
  text_out, create_solid_brush, fill_rect, delete_object,
}

-- The text of `c` bytes is written in the colours of the view.
unfoldable pub winui__textview_text_out : ℕ → ℤ → ℤ → List ℕ → Winui → Winui
unfolding perform
winui__textview_text_out hdc column row s g =
    let x = scale_ℤ g.char_width column in
    let y = scale_ℤ g.char_height row in
    if is_null g.hdc_textview
    then perform
        (get_dc g.hwnd_textview hdc
          ∷ select_object hdc g.hfont_normal
          ∷ set_text_color hdc g.rgb_textview_fg
          ∷ set_bk_color hdc g.rgb_textview_bg
          ∷ hide_caret g.hwnd_textview
          ∷ text_out hdc x y s
          ∷ show_caret g.hwnd_textview
          ∷ release_dc g.hwnd_textview hdc
          ∷ [])
        g
    else perform
        (set_text_color g.hdc_textview g.rgb_textview_fg
          ∷ set_bk_color g.hdc_textview g.rgb_textview_bg
          ∷ text_out g.hdc_textview x y s
          ∷ [])
        g

-- The rest of a row, from the column `x` to the last one.
abbrev pub rest_of_row : ℤ → ℤ → Winui → Rect
rest_of_row x y g = record {
  left = scale_ℤ g.char_width x;
  top = scale_ℤ g.char_height y;
  right = pos (g.textview_columns * g.char_width);
  bottom = scale_ℤ g.char_height (y +ℤ pos 1);
}

unfoldable pub winui__textview_clear_eol : ℕ → ℕ → ℤ → ℤ → Winui → Winui
unfolding perform
winui__textview_clear_eol new_dc brush x y g =
    let hdc = if is_null g.hdc_textview then new_dc else g.hdc_textview in
    let g1 = if is_null g.hdc_textview then perform (get_dc g.hwnd_textview new_dc ∷ []) g else g in
    let g2 = perform (create_solid_brush brush ∷ fill_rect hdc (rest_of_row x y g) brush ∷ []) g1 in
    let g3 =
      if hdc == g.hdc_textview then g2 else perform (release_dc g.hwnd_textview hdc ∷ []) g2 in
    perform (delete_object brush ∷ []) g3

unfoldable pub winui__minibuffer_text_out : ℕ → ℤ → ℤ → List ℕ → Winui → Winui
unfolding perform
winui__minibuffer_text_out hdc x y s g =
    if is_null g.hdc_minibuffer
    then perform
        (get_dc g.hwnd_minibuffer hdc
          ∷ select_object hdc g.hfont_normal
          ∷ set_text_color hdc g.rgb_minibuffer_fg
          ∷ set_bk_color hdc g.rgb_minibuffer_bg
          ∷ hide_caret g.hwnd_minibuffer
          ∷ text_out hdc x y s
          ∷ show_caret g.hwnd_minibuffer
          ∷ release_dc g.hwnd_minibuffer hdc
          ∷ [])
        g
    else perform (text_out g.hdc_minibuffer x y s ∷ []) g

unfoldable pub winui__minibuffer_clear_eol : ℕ → ℕ → ℤ → ℤ → Winui → Winui
unfolding perform
winui__minibuffer_clear_eol new_dc brush x y g =
    let hdc = if is_null g.hdc_minibuffer then new_dc else g.hdc_minibuffer in
    let g1 =
      if is_null g.hdc_minibuffer then perform (get_dc g.hwnd_minibuffer new_dc ∷ []) g else g in
    let g2 = perform (create_solid_brush brush ∷ fill_rect hdc (rest_of_row x y g) brush ∷ []) g1 in
    let g3 =
      if hdc == g.hdc_minibuffer then g2 else perform (release_dc g.hwnd_minibuffer hdc ∷ []) g2 in
    perform (delete_object brush ∷ []) g3

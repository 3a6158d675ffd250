-- ===== src/Gtkui.antt =====
-- src/gtkui.c: the variables of the GTK front end and the functions that change them. A function takes the
-- state and returns it changed; what it asks of GTK is added to `calls`, the last call first.
pub mod Calls
pub mod Setup
pub mod Keys
pub mod Text
pub mod Draw
pub mod Layout
pub mod Modifiers
pub mod Colors
pub mod Context
pub mod Session
use feline.Prelude.{
  ℕ, ◌+◌, ◌*◌, ◌/◌, ◌%◌, ◌^◌, Bool, true, false, if◌then◌else◌, Option, none, some, List, [], ◌∷◌,
  ℤ, pos, ◌==◌, length,
}
use feline.Gtkui.Calls.{
  Call, queue_draw, queue_resize, grab_focus, gtk_main, gtk_main_quit, frame_maximize,
  frame_unmaximize, set_title, textview, modeline, minibuffer, frame, destroy, run_pending_events,
  set_cursor, Widget, send_close, set_clipboard_text,
}

-- `RGB` of src/feline.h.
unfoldable pub rgb : ℕ → ℕ → ℕ → ℕ
rgb r g b = r + g * 2 ^ 8 + b * 2 ^ 16

pub record Gtkui : Type 0 where
  pub ascent : ℕ
  pub descent : ℕ
  pub char_width : ℕ
  pub char_height : ℕ
  pub textview_rows : ℕ
  pub textview_columns : ℕ
  pub cr_textview : Option ℕ
  pub cr_minibuffer : Option ℕ
  pub rgb_textview_fg : ℕ
  pub rgb_textview_bg : ℕ
  pub mode_line_text : List ℕ
  pub textview_caret_row : ℤ
  pub textview_caret_column : ℤ
  pub minibuffer_caret_row : ℤ
  pub minibuffer_caret_column : ℤ
  pub calls : List Call

-- The calls in the order in which the code makes them.
unfoldable pub perform : List Call → Gtkui → Gtkui
perform [] g = g
perform (c ∷ cs) g = perform cs (record g { calls = c ∷ g.calls })

-- The components of a colour, over 255.
unfoldable pub rgb_red : ℕ → ℕ
rgb_red color = color % 2 ^ 8

unfoldable pub rgb_green : ℕ → ℕ
rgb_green color = color / 2 ^ 8 % 2 ^ 8

unfoldable pub rgb_blue : ℕ → ℕ
rgb_blue color = color / 2 ^ 16 % 2 ^ 8

unfoldable pub gtkui__close : Gtkui → Bool × Gtkui
unfolding perform
gtkui__close g = (true, perform (send_close ∷ []) g)

-- `is_widget` is `GTK_IS_WIDGET`.
unfoldable pub gtkui__textview_invalidate : (Widget → Bool) → Gtkui → Gtkui
unfolding perform
gtkui__textview_invalidate is_widget g =
    let g' = if is_widget textview then perform (queue_draw textview ∷ []) g else g in
    if is_widget modeline then perform (queue_draw modeline ∷ []) g' else g'

unfoldable pub gtkui__minibuffer_invalidate : Gtkui → Gtkui
unfolding perform
gtkui__minibuffer_invalidate g = perform (queue_draw minibuffer ∷ run_pending_events ∷ []) g

-- A `GdkRectangle`, as far as the code reads it.
pub record Allocation : Type 0 where
  pub width : ℕ
  pub height : ℕ

unfoldable pub gtkui__textview_size_allocate : Allocation → Gtkui → Bool × Gtkui
gtkui__textview_size_allocate allocation g =
    let g' =
      if g.char_height == 0
      then g
      else (record g { textview_rows = allocation.height / g.char_height }) in
    let g'' =
      if g'.char_width == 0
      then g'
      else (record g' { textview_columns = allocation.width / g'.char_width }) in
    (true, g'')

-- The cursor's name is "text".
unfoldable pub gtkui__textview_realize : Gtkui → Gtkui
unfolding perform
gtkui__textview_realize g = perform (set_cursor textview (116 ∷ 101 ∷ 120 ∷ 116 ∷ []) ∷ []) g

unfoldable pub gtkui__frame_configure : Gtkui → Bool × Gtkui
unfolding perform
gtkui__frame_configure g = (true, perform (queue_resize textview ∷ []) g)

unfoldable pub gtkui__main : Gtkui → Gtkui
unfolding perform
gtkui__main g = perform (gtk_main ∷ []) g

unfoldable pub gtkui__exit : Gtkui → Gtkui
unfolding perform
gtkui__exit g = perform (destroy frame ∷ gtk_main_quit ∷ []) g

unfoldable pub gtkui__textview_set_fg_color : ℕ → Gtkui → Gtkui
gtkui__textview_set_fg_color color g = record g { rgb_textview_fg = color }

unfoldable pub gtkui__textview_set_bg_color : ℕ → Gtkui → Gtkui
gtkui__textview_set_bg_color color g = record g { rgb_textview_bg = color }

unfoldable pub gtkui__textview_set_caret_pos : ℤ → ℤ → Gtkui → Gtkui
gtkui__textview_set_caret_pos column row g = record g {
  textview_caret_column = column;
  textview_caret_row = row;
}

unfoldable pub gtkui__minibuffer_set_caret_pos : ℤ → ℤ → Gtkui → Gtkui
gtkui__minibuffer_set_caret_pos column row g = record g {
  minibuffer_caret_column = column;
  minibuffer_caret_row = row;
}

unfoldable pub gtkui__frame_maximize : Gtkui → Gtkui
unfolding perform
gtkui__frame_maximize g = perform (frame_maximize ∷ []) g

unfoldable pub gtkui__frame_unmaximize : Gtkui → Gtkui
unfolding perform
gtkui__frame_unmaximize g = perform (frame_unmaximize ∷ []) g

-- `is_maximized` is the answer of `gtk_window_is_maximized`.
unfoldable pub gtkui__frame_toggle_fullscreen : Bool → Gtkui → Gtkui
unfolding perform
gtkui__frame_toggle_fullscreen is_maximized g =
    if is_maximized then perform (frame_unmaximize ∷ []) g else perform (frame_maximize ∷ []) g

unfoldable pub gtkui__frame_set_text : List ℕ → Gtkui → Gtkui
unfolding perform
gtkui__frame_set_text s g = perform (set_title frame s ∷ []) g

unfoldable pub gtkui__modeline_set_text : List ℕ → Gtkui → Gtkui
gtkui__modeline_set_text s g = record g { mode_line_text = s }

unfoldable pub gtkui__minibuffer_main : Gtkui → Gtkui
unfolding perform
gtkui__minibuffer_main g = perform (grab_focus minibuffer ∷ gtk_main ∷ grab_focus textview ∷ []) g

unfoldable pub gtkui__minibuffer_exit : Gtkui → Gtkui
unfolding perform
gtkui__minibuffer_exit g = perform (gtk_main_quit ∷ []) g

unfoldable pub gtkui__textview_rows : Gtkui → ℕ
gtkui__textview_rows g = g.textview_rows

unfoldable pub gtkui__textview_columns : Gtkui → ℕ
gtkui__textview_columns g = g.textview_columns

unfoldable pub gtkui__char_height : Gtkui → ℕ
gtkui__char_height g = g.char_height

unfoldable pub gtkui__char_width : Gtkui → ℕ
gtkui__char_width g = g.char_width

-- `wait_for_text` is `gtk_clipboard_wait_for_text`, whose result may be NULL.
unfoldable pub gtkui__get_clipboard_text : (Gtkui → Option (List ℕ)) → Gtkui → Option (List ℕ)
gtkui__get_clipboard_text wait_for_text g = wait_for_text g

unfoldable pub gtkui__set_clipboard_text : List ℕ → Gtkui → Gtkui
unfolding perform
gtkui__set_clipboard_text text g = perform (set_clipboard_text text (length text) ∷ []) g

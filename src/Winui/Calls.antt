-- ===== src/Winui/Calls.antt =====
-- What src/winui.c asks of Windows, and what it sends to the Feline code, as data. Handles are numbers, NULL
-- is 0.
use feline.Prelude.{ℕ, List, ℤ}

pub data Window : Type 0 where
  frame textview modeline minibuffer : Window

pub data Procedure : Type 0 where
  frame_wnd_proc textview_wnd_proc minibuffer_wnd_proc : Procedure

-- CS_HREDRAW | CS_VREDRAW, and CS_DBLCLKS.
pub data ClassStyle : Type 0 where
  redraw double_clicks : ClassStyle

pub data Cursor : Type 0 where
  arrow ibeam : Cursor

-- The brush of a system colour, or a handle made by CreateSolidBrush.
pub data Brush : Type 0 where
  window_color : Brush
  solid : ℕ → Brush

-- The members of a WNDCLASSEX that differ between the classes. The class is named by its window.
pub record WindowClass : Type 0 where
  pub style : ClassStyle
  pub procedure : Procedure
  pub cursor : Cursor
  pub background : Brush
  pub name : Window

pub record Rect : Type 0 where
  pub left : ℤ
  pub top : ℤ
  pub right : ℤ
  pub bottom : ℤ

-- The place of a window in its parent.
pub record Place : Type 0 where
  pub x : ℤ
  pub y : ℤ
  pub width : ℤ
  pub height : ℤ

pub data Show : Type 0 where
  sw_show sw_maximize sw_restore : Show

pub data Failure : Type 0 where
  unable_to_register unable_to_create : Window → Failure

-- The messages of Windows that the procedures treat. Those of Feral end with the update of the display.
pub data Message : Type 0 where
  wm_create wm_close wm_destroy wm_setfocus wm_killfocus wm_size wm_paint wm_char wm_keydown :
      Message
  wm_syskeydown wm_lbuttondown wm_lbuttonup wm_lbuttondblclk wm_mousemove wm_mousewheel : Message
  wm_feral_update_display : Message
  wm_other : ℕ → Message

pub data Call : Type 0 where
  register_class : WindowClass → Call
  create_window : Window → Place → Call
  print_error : Failure → Call
  set_font : ℕ → ℕ → Call
  show_window : ℕ → Show → Call
  update_window set_foreground_window set_focus destroy_window : ℕ → Call
  move_window : ℕ → Place → Call
  set_window_text : ℕ → List ℕ → Call
  invalidate : ℕ → Call
  get_dc release_dc : ℕ → ℕ → Call
  begin_paint end_paint : ℕ → Call
  select_object : ℕ → ℕ → Call
  create_font create_solid_brush delete_object : ℕ → Call
  set_text_color set_bk_color : ℕ → ℕ → Call
  text_out : ℕ → ℤ → ℤ → List ℕ → Call
  fill_rect : ℕ → Rect → ℕ → Call
  create_caret : ℕ → ℕ → ℕ → Call
  show_caret hide_caret : ℕ → Call
  destroy_caret release_capture : Call
  set_capture : ℕ → Call
  post_quit_message post_update_display : Call
  def_window_proc : ℕ → Message → ℕ → ℕ → Call
  sleep_1 : Call
  open_clipboard close_clipboard empty_clipboard set_clipboard_data : Call
  global_alloc global_lock global_unlock : ℕ → Call
  -- To the Feline code.
  send_close send_update_display : Call
  send_textview_char send_textview_keydown send_minibuffer_char send_minibuffer_keydown : ℕ → Call
  send_lbuttondown send_mousemove : ℕ → ℕ → Call
  send_mousewheel : ℤ → Call

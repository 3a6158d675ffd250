-- ===== src/Winui/Messages.antt =====
-- The window procedures of src/winui.c. A procedure returns what becomes of the message and the state; `none`
-- stands for a fault of the division.
use feline.Prelude.{
  ℕ, ◌/◌, ◌%◌, ◌^◌, ◌-◌, Bool, not, ◌&&◌, ◌||◌, if◌then◌else◌, Option, none, some, [], ◌∷◌, ℤ, pos,
  negsuc, ◌==◌, ltb,
}
use feline.Gtkui.Keys.{is_down, add_flag}
use feline.Winui.{Winui, perform, is_null, winui__resize}
use feline.Winui.Setup.{Answers, winui__create_font}
use feline.Winui.Calls.{
  Message, wm_create, wm_close, wm_destroy, wm_setfocus, wm_killfocus, wm_size, wm_paint, wm_char,
  wm_keydown, wm_syskeydown, wm_lbuttondown, wm_lbuttonup, wm_lbuttondblclk, wm_mousemove,
  wm_mousewheel, wm_feral_update_display, send_close, send_update_display, send_textview_char,
  send_textview_keydown, send_minibuffer_char, send_minibuffer_keydown, send_lbuttondown,
  send_mousemove, send_mousewheel, post_quit_message, set_focus, create_caret, show_caret,
  destroy_caret, begin_paint, end_paint, select_object, set_text_color, set_bk_color, set_capture,
  release_capture, def_window_proc,
}

-- Virtual key codes of Windows.
abbrev pub vk_lbutton : ℕ
vk_lbutton = 1

abbrev pub vk_shift : ℕ
vk_shift = 0x10

abbrev pub vk_control : ℕ
vk_control = 0x11

abbrev pub vk_menu : ℕ
vk_menu = 0x12

abbrev pub mk_lbutton : ℕ
mk_lbutton = 1

abbrev pub loword : ℕ → ℕ
loword n = n % 2 ^ 16

abbrev pub hiword : ℕ → ℕ
hiword n = n / 2 ^ 16 % 2 ^ 16

-- The high word as a `short`.
abbrev pub wheel_delta : ℕ → ℤ
wheel_delta wparam =
    if ltb (hiword wparam) (2 ^ 15)
    then pos (hiword wparam)
    else negsuc (2 ^ 16 - hiword wparam - 1)

-- What the procedures ask: the state of a key, the context that BeginPaint returns, and the Feline code that
-- paints.
pub record Events : Type 0 where
  pub key_state : ℕ → Winui → ℕ
  pub paint_dc : Winui → ℕ
  pub textview_paint : Winui → Winui
  pub minibuffer_paint : Winui → Winui

-- 0, or what DefWindowProc returned.
pub data Returned : Type 0 where
  zero_returned default_returned : Returned

abbrev pub handled : Winui → Option (Returned × Winui)
handled g = some (zero_returned, g)

-- The end of a window procedure.
unfoldable pub by_default : ℕ → Message → ℕ → ℕ → Winui → Option (Returned × Winui)
unfolding perform
by_default hwnd msg wparam lparam g =
    some (default_returned, perform (def_window_proc hwnd msg wparam lparam ∷ []) g)

abbrev pub is_modifier : ℕ → Bool
is_modifier key = (key == vk_shift) || ((key == vk_control) || (key == vk_menu))

module _ (an : Answers) (ev : Events) where
  open ev use {key_state, paint_dc, textview_paint, minibuffer_paint}

  -- `rect` is what GetClientRect stores.
  unfoldable pub winui__frame_wnd_proc : ℕ → Message → ℕ → ℕ → Winui → Option (Returned × Winui)
  unfolding perform
  winui__frame_wnd_proc hwnd wm_create wparam lparam g = handled (winui__create_font an hwnd g)
  winui__frame_wnd_proc hwnd wm_close wparam lparam g = handled (perform (send_close ∷ []) g)
  winui__frame_wnd_proc hwnd wm_destroy wparam lparam g =
      handled (perform (post_quit_message ∷ []) g)
  winui__frame_wnd_proc hwnd wm_setfocus wparam lparam g =
      handled (if is_null g.hwnd_textview then g else perform (set_focus g.hwnd_textview ∷ []) g)
  winui__frame_wnd_proc hwnd wm_size wparam lparam g = handled (winui__resize (an.client_rect g) g)
  winui__frame_wnd_proc hwnd msg wparam lparam g = by_default hwnd msg wparam lparam g

  abbrev pub is_pressed : ℕ → Winui → Bool
  is_pressed key g = is_down (key_state key g) 0x8000

  -- ALT_MASK is bit 16, CTRL_MASK bit 17 and SHIFT_MASK bit 18.
  unfoldable pub with_key_states : ℕ → Winui → ℕ
  with_key_states wparam g =
      let w1 = add_flag (is_pressed vk_menu g) 16 wparam in
      let w2 = add_flag (is_pressed vk_control g) 17 w1 in add_flag (is_pressed vk_shift g) 18 w2

  unfoldable pub winui__textview_keydown : ℕ → Winui → Winui
  unfolding perform
  winui__textview_keydown wparam g =
      perform (send_textview_keydown (with_key_states wparam g) ∷ []) g

  unfoldable pub winui__minibuffer_keydown : ℕ → Winui → Winui
  unfolding perform
  winui__minibuffer_keydown wparam g =
      perform (send_minibuffer_keydown (with_key_states wparam g) ∷ []) g

  unfoldable pub textview_on_paint : ℕ → Winui → Winui
  unfolding perform
  textview_on_paint hwnd g =
      let hdc = paint_dc g in
      let g1 =
        perform
          (begin_paint hwnd
            ∷ select_object hdc g.hfont_normal
            ∷ set_text_color hdc g.rgb_textview_fg
            ∷ set_bk_color hdc g.rgb_textview_bg
            ∷ [])
          (record g { hdc_textview = hdc }) in
      perform (end_paint hwnd ∷ []) (record (textview_paint g1) { hdc_textview = 0 })

  unfoldable pub textview_on_size : ℕ → Winui → Option Winui
  textview_on_size lparam g =
      if is_null g.char_height || is_null g.char_width
      then none
      else some (record g {
        textview_rows = hiword lparam / g.char_height;
        textview_columns = loword lparam / g.char_width;
      })

  -- Bit 29 of `lparam` is the context code, and bit 31 the transition state.
  abbrev pub is_sys_key : ℕ → ℕ → Bool
  is_sys_key wparam lparam =
      not (wparam == vk_control) && (not (wparam == vk_menu) && is_down lparam (2 ^ 29))

  unfoldable pub winui__textview_wnd_proc : ℕ → Message → ℕ → ℕ → Winui → Option (Returned × Winui)
  unfolding perform
  winui__textview_wnd_proc hwnd wm_setfocus wparam lparam g =
      by_default hwnd wm_setfocus wparam lparam
        (perform (create_caret hwnd 1 g.char_height ∷ show_caret hwnd ∷ []) g)
  winui__textview_wnd_proc hwnd wm_killfocus wparam lparam g =
      by_default hwnd wm_killfocus wparam lparam (perform (destroy_caret ∷ []) g)
  winui__textview_wnd_proc hwnd wm_paint wparam lparam g = handled (textview_on_paint hwnd g)
  winui__textview_wnd_proc hwnd wm_feral_update_display wparam lparam g =
      by_default hwnd wm_feral_update_display wparam lparam (perform (send_update_display ∷ []) g)
  winui__textview_wnd_proc hwnd wm_size wparam lparam g = elim (textview_on_size lparam g) [
    | none ↦ none
    | some g1 ↦ by_default hwnd wm_size wparam lparam g1
  ]
  winui__textview_wnd_proc hwnd wm_char wparam lparam g =
      if is_pressed vk_control g
      then handled g
      else by_default hwnd wm_char wparam lparam
          (if is_down lparam 0x80000000 then g else perform (send_textview_char wparam ∷ []) g)
  winui__textview_wnd_proc hwnd wm_keydown wparam lparam g =
      by_default hwnd wm_keydown wparam lparam
        (if is_modifier wparam then g else winui__textview_keydown wparam g)
  winui__textview_wnd_proc hwnd wm_syskeydown wparam lparam g =
      by_default hwnd wm_syskeydown wparam lparam
        (if is_sys_key wparam lparam then winui__textview_keydown wparam g else g)
  winui__textview_wnd_proc hwnd wm_lbuttondown wparam lparam g =
      handled (perform (set_capture hwnd ∷ send_lbuttondown wparam lparam ∷ []) g)
  winui__textview_wnd_proc hwnd wm_lbuttonup wparam lparam g =
      handled (perform (release_capture ∷ []) g)
  winui__textview_wnd_proc hwnd wm_lbuttondblclk wparam lparam g =
      handled (winui__textview_keydown vk_lbutton g)
  winui__textview_wnd_proc hwnd wm_mousemove wparam lparam g =
      handled
        (if is_down wparam mk_lbutton then perform (send_mousemove wparam lparam ∷ []) g else g)
  winui__textview_wnd_proc hwnd wm_mousewheel wparam lparam g =
      handled (perform (send_mousewheel (wheel_delta wparam) ∷ []) g)
  winui__textview_wnd_proc hwnd msg wparam lparam g = by_default hwnd msg wparam lparam g

  unfoldable pub minibuffer_on_paint : ℕ → Winui → Winui
  unfolding perform
  minibuffer_on_paint hwnd g =
      let hdc = paint_dc g in
      let g1 =
        perform
          (begin_paint hwnd
            ∷ select_object hdc g.hfont_normal
            ∷ set_text_color hdc g.rgb_minibuffer_fg
            ∷ set_bk_color hdc g.rgb_minibuffer_bg
            ∷ [])
          (record g { hdc_minibuffer = hdc }) in
      perform (end_paint hwnd ∷ []) (record (minibuffer_paint g1) { hdc_minibuffer = 0 })

  unfoldable pub winui__minibuffer_wnd_proc :
      ℕ → Message → ℕ → ℕ → Winui → Option (Returned × Winui)
  unfolding perform
  winui__minibuffer_wnd_proc hwnd wm_setfocus wparam lparam g =
      by_default hwnd wm_setfocus wparam lparam
        (perform (create_caret hwnd g.char_width g.char_height ∷ show_caret hwnd ∷ []) g)
  winui__minibuffer_wnd_proc hwnd wm_killfocus wparam lparam g =
      by_default hwnd wm_killfocus wparam lparam (perform (destroy_caret ∷ []) g)
  winui__minibuffer_wnd_proc hwnd wm_paint wparam lparam g = handled (minibuffer_on_paint hwnd g)
  winui__minibuffer_wnd_proc hwnd wm_char wparam lparam g =
      by_default hwnd wm_char wparam lparam (perform (send_minibuffer_char wparam ∷ []) g)
  winui__minibuffer_wnd_proc hwnd wm_keydown wparam lparam g =
      by_default hwnd wm_keydown wparam lparam
        (if is_modifier wparam then g else winui__minibuffer_keydown wparam g)
  winui__minibuffer_wnd_proc hwnd wm_syskeydown wparam lparam g =
      by_default hwnd wm_syskeydown wparam lparam
        (if is_sys_key wparam lparam then winui__minibuffer_keydown wparam g else g)
  winui__minibuffer_wnd_proc hwnd msg wparam lparam g = by_default hwnd msg wparam lparam g

-- ===== src/Winui.antt =====
-- src/winui.c: the variables of the Windows front end and the functions that change them. A function takes
-- the state and returns it changed; what it asks of Windows is added to `calls`, the last call first.
pub mod Calls
pub mod Setup
pub mod Text
pub mod Messages
pub mod Loop
pub mod Clipboard
pub mod Layout
pub mod Handles
pub mod Keys
pub mod Lost
pub mod Start
pub mod Paint
pub mod Session
use feline.Prelude.{ℕ, ◌*◌, Bool, true, false, if◌then◌else◌, List, [], ◌∷◌, ℤ, pos, ◌-ℤ◌, ◌==◌}
use feline.Winui.Calls.{
  Call, Rect, Place, move_window, destroy_window, show_window, Show, sw_maximize, sw_restore,
  set_window_text, invalidate, post_update_display,
}

pub record Winui : Type 0 where
  pub hfont_normal : ℕ
  pub char_width : ℕ
  pub char_height : ℕ
  pub textview_rows : ℕ
  pub textview_columns : ℕ
  pub hwnd_frame : ℕ
  pub hwnd_textview : ℕ
  pub hdc_textview : ℕ
  pub hwnd_modeline : ℕ
  pub hwnd_minibuffer : ℕ
  pub hdc_minibuffer : ℕ
  pub rgb_textview_fg : ℕ
  pub rgb_textview_bg : ℕ
  pub rgb_minibuffer_fg : ℕ
  pub rgb_minibuffer_bg : ℕ
  pub minibuffer_exit : Bool
  pub initialized : Bool
  pub calls : List Call

-- The calls in the order in which the code makes them.
unfoldable pub perform : List Call → Winui → Winui
perform [] g = g
perform (c ∷ cs) g = perform cs (record g { calls = c ∷ g.calls })

-- A handle as a condition.
abbrev pub is_null : ℕ → Bool
is_null h = h == 0

-- `rect` is what GetClientRect stored for the frame.
unfoldable pub winui__resize : Rect → Winui → Winui
unfolding perform
winui__resize rect g =
    perform
      (move_window g.hwnd_textview (record {
        x = pos 0;
        y = pos 0;
        width = rect.right -ℤ rect.left;
        height = (rect.bottom -ℤ rect.top) -ℤ pos 32;
      })
        ∷ move_window g.hwnd_modeline (record {
          x = pos 0;
          y = rect.bottom -ℤ pos (2 * g.char_height);
          width = rect.right;
          height = pos g.char_height;
        })
        ∷ move_window g.hwnd_minibuffer (record {
          x = pos 0;
          y = rect.bottom -ℤ pos g.char_height;
          width = rect.right;
          height = pos g.char_height;
        })
        ∷ [])
      g

unfoldable pub winui__exit : Winui → Winui
unfolding perform
winui__exit g = perform (destroy_window g.hwnd_frame ∷ []) g

unfoldable pub winui__textview_request_update_display : Winui → Winui
unfolding perform
winui__textview_request_update_display g = perform (post_update_display ∷ []) g

unfoldable pub winui__textview_rows : Winui → ℕ
winui__textview_rows g = g.textview_rows

unfoldable pub winui__textview_columns : Winui → ℕ
winui__textview_columns g = g.textview_columns

unfoldable pub winui__textview_set_fg_color : ℕ → Winui → Winui
winui__textview_set_fg_color rgb g = record g { rgb_textview_fg = rgb }

unfoldable pub winui__textview_set_bg_color : ℕ → Winui → Winui
winui__textview_set_bg_color rgb g = record g { rgb_textview_bg = rgb }

unfoldable pub winui__char_height : Winui → ℕ
winui__char_height g = g.char_height

unfoldable pub winui__char_width : Winui → ℕ
winui__char_width g = g.char_width

unfoldable pub winui__frame_maximize : Winui → Winui
unfolding perform
winui__frame_maximize g = perform (show_window g.hwnd_frame sw_maximize ∷ []) g

unfoldable pub winui__frame_unmaximize : Winui → Winui
unfolding perform
winui__frame_unmaximize g = perform (show_window g.hwnd_frame sw_restore ∷ []) g

abbrev pub is_maximize : Show → Bool
is_maximize sw_maximize = true
is_maximize _ = false

-- `show_cmd` is the member of the window placement.
unfoldable pub winui__frame_toggle_fullscreen : Show → Winui → Winui
unfolding perform
winui__frame_toggle_fullscreen show_cmd g =
    if is_maximize show_cmd
    then perform (show_window g.hwnd_frame sw_restore ∷ []) g
    else perform (show_window g.hwnd_frame sw_maximize ∷ []) g

unfoldable pub winui__frame_set_text : List ℕ → Winui → Winui
unfolding perform
winui__frame_set_text s g =
    if is_null g.hwnd_frame then g else perform (set_window_text g.hwnd_frame s ∷ []) g

unfoldable pub winui__modeline_set_text : List ℕ → Winui → Winui
unfolding perform
winui__modeline_set_text s g =
    if is_null g.hwnd_modeline then g else perform (set_window_text g.hwnd_modeline s ∷ []) g

unfoldable pub winui__minibuffer_exit : Winui → Winui
winui__minibuffer_exit g = record g { minibuffer_exit = true }

unfoldable pub winui__minibuffer_invalidate : Winui → Winui
unfolding perform
winui__minibuffer_invalidate g = perform (invalidate g.hwnd_minibuffer ∷ []) g

-- ===== src/Winui/Setup.antt =====
-- The window classes, the font and the windows of src/winui.c. What Windows answers is a parameter.
use feline.Prelude.{ℕ, ◌*◌, Bool, true, if◌then◌else◌, [], ◌∷◌, pos, ◌-ℤ◌, half_ℤ}
use feline.Winui.{Winui, perform, is_null}
use feline.Winui.Calls.{
  Window, frame, textview, modeline, minibuffer, frame_wnd_proc, textview_wnd_proc,
  minibuffer_wnd_proc, redraw, double_clicks, arrow, ibeam, window_color, solid, WindowClass, Rect,
  Place, sw_show, unable_to_register, unable_to_create, register_class, create_window, print_error,
  set_font, show_window, update_window, set_foreground_window, create_font, get_dc, select_object,
  delete_object, release_dc, create_solid_brush,
}

-- `registers` tells whether RegisterClassEx succeeds. `create` is CreateWindow, which calls the window
-- procedures and so may change the state. `text_face_differs` tells of GetTextFace and lstrcmpi, `metrics` of
-- GetTextMetrics: the average width and the height.
pub record Answers : Type 0 where
  pub registers : Window → Winui → Bool
  pub brush : Winui → ℕ
  pub create : Window → Place → Winui → ℕ × Winui
  pub desktop_rect : Winui → Rect
  pub client_rect : Winui → Rect
  pub font : Winui → ℕ
  pub stock_font : Winui → ℕ
  pub dc : Winui → ℕ
  pub old_font : Winui → ℕ
  pub text_face_differs : Winui → Bool
  pub metrics : Winui → ℕ × ℕ

abbrev pub frame_class : WindowClass
frame_class = record {
  style = redraw;
  procedure = frame_wnd_proc;
  cursor = arrow;
  background = window_color;
  name = frame;
}

abbrev pub textview_class : ℕ → WindowClass
textview_class brush = record {
  style = double_clicks;
  procedure = textview_wnd_proc;
  cursor = ibeam;
  background = solid brush;
  name = textview;
}

abbrev pub minibuffer_class : ℕ → WindowClass
minibuffer_class brush = record {
  style = double_clicks;
  procedure = minibuffer_wnd_proc;
  cursor = ibeam;
  background = solid brush;
  name = minibuffer;
}

-- The places of the windows in a client area.
abbrev pub textview_place : Rect → ℕ → Place
textview_place rect char_height = record {
  x = pos 0;
  y = pos 0;
  width = rect.right -ℤ rect.left;
  height = (rect.bottom -ℤ rect.top) -ℤ pos (2 * char_height);
}

abbrev pub modeline_place : Rect → ℕ → Place
modeline_place rect char_height = record {
  x = pos 0;
  y = rect.bottom -ℤ pos (2 * char_height);
  width = rect.right;
  height = pos char_height;
}

abbrev pub minibuffer_place : Rect → ℕ → Place
minibuffer_place rect char_height = record {
  x = pos 0;
  y = rect.bottom -ℤ pos char_height;
  width = rect.right;
  height = pos char_height;
}

module _ (an : Answers) where
  open an use {
    registers, brush, create, desktop_rect, client_rect, font, stock_font, dc, old_font,
    text_face_differs, metrics,
  }

  -- The class of the text view, and then that of the minibuffer.
  unfoldable pub register_minibuffer : Winui → Winui
  unfolding perform
  register_minibuffer g =
      let b = brush g in
      let g1 = perform (create_solid_brush b ∷ register_class (minibuffer_class b) ∷ []) g in
      let g2 =
        if registers minibuffer g
        then g1
        else perform (print_error (unable_to_register minibuffer) ∷ []) g1 in
      record g2 { initialized = true }

  unfoldable pub register_textview : Winui → Winui
  unfolding perform
  register_textview g =
      let b = brush g in
      let g1 = perform (create_solid_brush b ∷ register_class (textview_class b) ∷ []) g in
      if registers textview g
      then register_minibuffer g1
      else perform (print_error (unable_to_register textview) ∷ []) g1

  unfoldable pub winui__initialize : Winui → Winui
  unfolding perform
  winui__initialize g =
      let g1 = perform (register_class frame_class ∷ []) g in
      if g.initialized
      then g
      else if registers frame g
      then register_textview g1
      else perform (print_error (unable_to_register frame) ∷ []) g1

  -- The font that was made is not the one asked for: it is deleted, and the system's own font is taken.
  unfoldable pub take_stock_font : ℕ → ℕ → ℕ → Winui → Winui
  unfolding perform
  take_stock_font hdc old made g =
      let stock = stock_font g in
      record (perform (select_object hdc old ∷ delete_object made ∷ select_object hdc stock ∷ [])
        g) { hfont_normal = stock }

  -- `hwnd` is the frame, which is being created.
  unfoldable pub winui__create_font : ℕ → Winui → Winui
  unfolding perform
  winui__create_font hwnd g =
      let made = font g in
      let g1 = record (perform (create_font made ∷ []) g) { hfont_normal = made } in
      let hdc = dc g1 in
      let g2 = perform (get_dc hwnd hdc ∷ select_object hdc made ∷ []) g1 in
      let g3 = if text_face_differs g2 then take_stock_font hdc (old_font g1) made g2 else g2 in
      let (width, height) = metrics g3 in
      if is_null made
      then record g1 { hfont_normal = stock_font g1 }
      else perform (release_dc hwnd hdc ∷ [])
          (record g3 { char_width = width; char_height = height })

  abbrev ask : Window → Place → Winui → ℕ × Winui
  ask w place g = create w place (record g { calls = create_window w place ∷ g.calls })

  -- The last window, and what follows when all are there.
  unfoldable pub create_minibuffer : Rect → Winui → Winui
  unfolding perform
  create_minibuffer rect g =
      let (hwnd, g1) = ask minibuffer (minibuffer_place rect g.char_height) g in
      let g2 = record g1 { hwnd_minibuffer = hwnd } in
      let g3 =
        if is_null g2.hwnd_modeline
        then g2
        else perform (set_font g2.hwnd_modeline g2.hfont_normal ∷ []) g2 in
      if is_null hwnd
      then perform (print_error (unable_to_create minibuffer) ∷ []) g2
      else perform
          (set_font g3.hwnd_minibuffer g3.hfont_normal
            ∷ show_window g3.hwnd_frame sw_show
            ∷ update_window g3.hwnd_frame
            ∷ set_foreground_window g3.hwnd_frame
            ∷ [])
          g3

  unfoldable pub create_modeline : Rect → Winui → Winui
  unfolding perform
  create_modeline rect g =
      let (hwnd, g1) = ask modeline (modeline_place rect g.char_height) g in
      let g2 = record g1 { hwnd_modeline = hwnd } in
      if is_null hwnd
      then perform (print_error (unable_to_create modeline) ∷ []) g2
      else create_minibuffer rect g2

  unfoldable pub create_textview : Rect → Winui → Winui
  unfolding perform
  create_textview rect g =
      let (hwnd, g1) = ask textview (textview_place rect g.char_height) g in
      let g2 = record g1 { hwnd_textview = hwnd } in
      if is_null hwnd
      then perform (print_error (unable_to_create textview) ∷ []) g2
      else create_modeline rect g2

  unfoldable pub winui__create_frame : Winui → Winui
  unfolding perform
  winui__create_frame g =
      let desktop = desktop_rect g in
      let across = half_ℤ (desktop.right -ℤ desktop.left) in
      let (hwnd, g1) =
        ask frame (record { x = across; y = pos 0; width = across; height = pos 768 }) g in
      let g2 = record g1 { hwnd_frame = hwnd } in
      if is_null hwnd
      then perform (print_error (unable_to_create frame) ∷ []) g2
      else create_textview (client_rect g2) g2

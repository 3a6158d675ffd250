-- ===== src/Gtkui/Calls.antt =====
-- What src/gtkui.c asks of GTK and of cairo, and the events that it sends to the Feline code, as data.
use feline.Prelude.{ℕ, Bool, Option, List, ℤ}

pub data Widget : Type 0 where
  frame box textview modeline minibuffer : Widget

pub data Signal : Type 0 where
  configure_event delete_event draw_signal key_press_event button_press_event : Signal
  motion_notify_event scroll_event size_allocate_signal realize_signal : Signal

pub data Handler : Type 0 where
  frame_configure close textview_draw textview_key_press textview_button_press : Handler
  textview_motion_notify textview_mousewheel textview_size_allocate textview_realize : Handler
  modeline_draw minibuffer_draw minibuffer_key_press : Handler

pub data EventMask : Type 0 where
  button_press_mask pointer_motion_mask scroll_mask key_press_mask : EventMask

-- Drawing on a cairo context. The components of a colour are numerators over 255.
pub data Command : Type 0 where
  save restore clip paint fill : Command
  set_source_rgb : ℕ → ℕ → ℕ → Command
  rectangle : ℤ → ℤ → ℤ → ℤ → Command
  move_to : ℤ → ℤ → Command
  show_text : List ℕ → Command
  select_font_face : List ℕ → Command
  set_font_size : ℕ → Command

-- `draw none` is a call of cairo on a null context.
pub data Call : Type 0 where
  draw : Option ℕ → Command → Call
  gtk_init gtk_main gtk_main_quit frame_maximize frame_unmaximize : Call
  window_new box_new_vertical drawing_area_new show_all destroy : Widget → Call
  set_title : Widget → List ℕ → Call
  set_default_size : Widget → ℕ → ℕ → Call
  connect : Widget → Signal → Handler → Call
  container_add : Widget → Widget → Call
  set_size_request : Widget → ℤ → ℤ → Call
  set_can_focus : Widget → Bool → Call
  set_events : Widget → List EventMask → Call
  pack_end : Widget → Widget → Bool → Bool → ℕ → Call
  move : Widget → ℕ → ℕ → Call
  queue_draw queue_resize grab_focus : Widget → Call
  set_cursor : Widget → List ℕ → Call
  run_pending_events : Call
  print : List ℕ → Call
  send_close : Call
  send_textview_keydown send_minibuffer_keydown : ℕ → Call
  send_button_press send_mousemove : ℤ → ℤ → Call
  send_mousewheel : ℤ → Call
  set_clipboard_text : List ℕ → ℕ → Call

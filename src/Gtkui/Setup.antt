-- ===== src/Gtkui/Setup.antt =====
-- The frame and its widgets, as `gtkui__initialize` of src/gtkui.c builds them.
use feline.Prelude.{ℕ, true, false, List, [], ◌∷◌, pos, negsuc}
use feline.Gtkui.{Gtkui, perform}
use feline.Gtkui.Calls.{
  frame, box, textview, modeline, minibuffer, configure_event, delete_event, draw_signal,
  key_press_event, button_press_event, motion_notify_event, scroll_event, size_allocate_signal,
  realize_signal, frame_configure, close, textview_draw, textview_key_press, textview_button_press,
  textview_motion_notify, textview_mousewheel, textview_size_allocate, textview_realize,
  modeline_draw, minibuffer_draw, minibuffer_key_press, button_press_mask, pointer_motion_mask,
  scroll_mask, key_press_mask, gtk_init, window_new, box_new_vertical, drawing_area_new, show_all,
  set_title, set_default_size, connect, container_add, set_size_request, set_can_focus, set_events,
  pack_end, move, Call,
}

-- "Feral"
abbrev feral : List ℕ
feral = 70 ∷ 101 ∷ 114 ∷ 97 ∷ 108 ∷ []

-- The frame, and the box in it.
unfoldable pub initialize_frame : List Call
initialize_frame =
    gtk_init
    ∷ window_new frame
    ∷ set_title frame feral
    ∷ set_default_size frame 800 600
    ∷ connect frame configure_event frame_configure
    ∷ connect frame delete_event close
    ∷ box_new_vertical box
    ∷ container_add frame box
    ∷ []

unfoldable pub initialize_textview : List Call
initialize_textview =
    drawing_area_new textview
    ∷ set_size_request textview (negsuc 0) (negsuc 0)
    ∷ set_can_focus textview true
    ∷ set_events textview
        (button_press_mask ∷ pointer_motion_mask ∷ scroll_mask ∷ key_press_mask ∷ [])
    ∷ connect textview draw_signal textview_draw
    ∷ connect textview key_press_event textview_key_press
    ∷ connect textview button_press_event textview_button_press
    ∷ connect textview motion_notify_event textview_motion_notify
    ∷ connect textview scroll_event textview_mousewheel
    ∷ connect textview size_allocate_signal textview_size_allocate
    ∷ connect textview realize_signal textview_realize
    ∷ []

unfoldable pub initialize_modeline : List Call
initialize_modeline =
    drawing_area_new modeline
    ∷ set_size_request modeline (negsuc 0) (pos 20)
    ∷ set_can_focus modeline true
    ∷ set_events modeline (key_press_mask ∷ [])
    ∷ connect modeline draw_signal modeline_draw
    ∷ []

unfoldable pub initialize_minibuffer : List Call
initialize_minibuffer =
    drawing_area_new minibuffer
    ∷ set_size_request minibuffer (negsuc 0) (pos 24)
    ∷ set_can_focus minibuffer true
    ∷ set_events minibuffer (button_press_mask ∷ key_press_mask ∷ [])
    ∷ connect minibuffer draw_signal minibuffer_draw
    ∷ connect minibuffer key_press_event minibuffer_key_press
    ∷ []

unfoldable pub initialize_packing : List Call
initialize_packing =
    pack_end box minibuffer false false 0
    ∷ pack_end box modeline false false 0
    ∷ pack_end box textview true true 0
    ∷ move frame 480 0
    ∷ show_all frame
    ∷ []

unfoldable pub gtkui__initialize : Gtkui → Gtkui
gtkui__initialize g =
    let g1 = perform initialize_frame g in
    let g2 = perform initialize_textview g1 in
    let g3 = perform initialize_modeline g2 in
    let g4 = perform initialize_minibuffer g3 in perform initialize_packing g4

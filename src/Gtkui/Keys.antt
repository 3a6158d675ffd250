-- ===== src/Gtkui/Keys.antt =====
-- The keyboard and mouse handlers of src/gtkui.c. The masks and key values are those of GDK 3.
use feline.Prelude.{
  ℕ, ◌^◌, ◌*◌, Bool, true, false, ◌||◌, if◌then◌else◌, [], ◌∷◌, ℤ, pos, negsuc, bit_and, bit_or,
  ◌==◌,
}
use feline.Gtkui.{Gtkui, perform, gtkui__textview_invalidate}
use feline.Gtkui.Calls.{
  Widget, frame, minibuffer, queue_draw, send_textview_keydown, send_minibuffer_keydown,
  send_button_press, send_mousemove, send_mousewheel,
}

-- GDK_SHIFT_MASK, GDK_CONTROL_MASK, GDK_MOD1_MASK and GDK_BUTTON1_MASK.
abbrev pub gdk_shift_mask : ℕ
gdk_shift_mask = 1

abbrev pub gdk_control_mask : ℕ
gdk_control_mask = 4

abbrev pub gdk_mod1_mask : ℕ
gdk_mod1_mask = 8

abbrev pub gdk_button1_mask : ℕ
gdk_button1_mask = 256

-- GDK_KEY_Shift_L and the others, GDK_KEY_Pointer_DblClick1 the last.
abbrev pub key_shift_l : ℕ
key_shift_l = 0xffe1

abbrev pub key_shift_r : ℕ
key_shift_r = 0xffe2

abbrev pub key_control_l : ℕ
key_control_l = 0xffe3

abbrev pub key_control_r : ℕ
key_control_r = 0xffe4

abbrev pub key_alt_l : ℕ
key_alt_l = 0xffe9

abbrev pub key_alt_r : ℕ
key_alt_r = 0xffea

abbrev pub key_pointer_dblclick1 : ℕ
key_pointer_dblclick1 = 0xfeee

-- `state & mask`, as a condition.
abbrev pub is_down : ℕ → ℕ → Bool
is_down state mask = if bit_and state mask == 0 then false else true

-- One `if (state & mask) keyval |= flag;`, the flag a bit.
unfoldable pub add_flag : Bool → ℕ → ℕ → ℕ
add_flag down bit keyval = if down then bit_or (1 * 2 ^ bit) keyval else keyval

-- ALT_MASK is bit 16, CTRL_MASK bit 17 and SHIFT_MASK bit 18.
unfoldable pub with_modifiers : ℕ → ℕ → ℕ
with_modifiers keyval state =
    let k1 = add_flag (is_down state gdk_mod1_mask) 16 keyval in
    let k2 = add_flag (is_down state gdk_control_mask) 17 k1 in
    add_flag (is_down state gdk_shift_mask) 18 k2

unfoldable pub gtkui__textview_keydown : ℕ → ℕ → Gtkui → Gtkui
unfolding perform
gtkui__textview_keydown keyval state g =
    perform (send_textview_keydown (with_modifiers keyval state) ∷ queue_draw frame ∷ []) g

-- A button event; its position with the fractions cut off, as the calls take it.
pub record ButtonEvent : Type 0 where
  pub is_double : Bool
  pub state : ℕ
  pub x : ℤ
  pub y : ℤ

unfoldable pub gtkui__textview_button_press : ButtonEvent → Gtkui → Bool × Gtkui
unfolding perform
gtkui__textview_button_press event g =
    if event.is_double
    then (
      true,
      perform (send_textview_keydown (with_modifiers key_pointer_dblclick1 event.state) ∷ []) g,
    )
    else (true, perform (send_button_press event.x event.y ∷ []) g)

unfoldable pub gtkui__textview_motion_notify : ButtonEvent → Gtkui → Bool × Gtkui
unfolding perform
gtkui__textview_motion_notify event g =
    if is_down event.state gdk_button1_mask
    then (true, perform (send_mousemove event.x event.y ∷ []) g)
    else (false, g)

pub data ScrollDirection : Type 0 where
  scroll_up scroll_down scroll_other : ScrollDirection

unfoldable pub gtkui__textview_mousewheel : (Widget → Bool) → ScrollDirection → Gtkui → Bool × Gtkui
unfolding perform
gtkui__textview_mousewheel is_widget scroll_up g =
    (true, gtkui__textview_invalidate is_widget (perform (send_mousewheel (pos 1) ∷ []) g))
gtkui__textview_mousewheel is_widget scroll_down g =
    (true, gtkui__textview_invalidate is_widget (perform (send_mousewheel (negsuc 0) ∷ []) g))
gtkui__textview_mousewheel is_widget scroll_other g = (true, gtkui__textview_invalidate is_widget g)

unfoldable pub gtkui__textview_key_press : ℕ → ℕ → Gtkui → Bool × Gtkui
gtkui__textview_key_press keyval state g =
    if (keyval == key_control_l) || (keyval == key_control_r)
    then (false, g)
    else if (keyval == key_alt_l) || (keyval == key_alt_r)
    then (false, g)
    else if (keyval == key_shift_l) || (keyval == key_shift_r)
    then (false, g)
    else (true, gtkui__textview_keydown keyval state g)

unfoldable pub on_minibuffer_key_press : ℕ → ℕ → Gtkui → Bool × Gtkui
unfolding perform
on_minibuffer_key_press keyval state g =
    if (keyval == key_control_l) || (keyval == key_control_r)
    then (false, g)
    else if (keyval == key_alt_l) || (keyval == key_alt_r)
    then (false, g)
    else (
      true,
      perform (send_minibuffer_keydown (with_modifiers keyval state) ∷ queue_draw minibuffer ∷ [])
          g,
    )

-- ===== src/Gtkui/Session.antt =====
-- A session of src/gtkui.c: the handlers that gtkui__initialize connects, called one after the other as the signals
-- come.
pub mod Kept
pub mod Drawn
pub mod Settled
use feline.Prelude.{ℕ, Bool, true, Option, none, some, List, [], ◌∷◌}
use feline.Gtkui.{
  Gtkui, Allocation, gtkui__close, gtkui__textview_size_allocate, gtkui__textview_realize,
  gtkui__frame_configure,
}
use feline.Gtkui.Calls.{Widget}
use feline.Gtkui.Keys.{
  ButtonEvent, ScrollDirection, gtkui__textview_button_press, gtkui__textview_motion_notify,
  gtkui__textview_mousewheel, gtkui__textview_key_press, on_minibuffer_key_press,
}
use feline.Gtkui.Draw.{Toolkit, on_modeline_draw, gtkui__textview_draw, gtkui__minibuffer_draw}

-- The signals, with what the handlers read of them. A key is a key value and the state of the modifiers; a context
-- is given to what draws.
pub data Event : Type 0 where
  frame_configure frame_delete textview_realize : Event
  textview_size_allocate : Allocation → Event
  textview_draw modeline_draw minibuffer_draw : ℕ → Event
  textview_key minibuffer_key : ℕ → ℕ → Event
  textview_button textview_motion : ButtonEvent → Event
  textview_scroll : ScrollDirection → Event

-- The allocation of the text view, once a signal has come.
abbrev pub allocation_after : Event → Allocation → Allocation
allocation_after (textview_size_allocate a) old = a
allocation_after _ old = old

-- `tk a` is what GTK and cairo answer while the text view has the allocation `a`, and `feline` is what the Feline code
-- does in answer to what a handler has sent it.
module _ (tk : Allocation → Toolkit) (is_widget : Widget → Bool)
    (feline : Event → Gtkui → Gtkui) where
  -- `none` is the fault of the handler that draws the text view.
  unfoldable pub dispatch : Allocation → Event → Gtkui → Option Gtkui
  dispatch a frame_configure g = some (gtkui__frame_configure g).1
  dispatch a frame_delete g = some (gtkui__close g).1
  dispatch a textview_realize g = some (gtkui__textview_realize g)
  dispatch a (textview_size_allocate new) g = some (gtkui__textview_size_allocate new g).1
  dispatch a (textview_draw cr) g = elim (gtkui__textview_draw (tk a) true cr g) [
    | none ↦ none
    | some (ret, g') ↦ some g'
  ]
  dispatch a (modeline_draw cr) g = some (on_modeline_draw cr g).1
  dispatch a (minibuffer_draw cr) g = some (gtkui__minibuffer_draw (tk a) cr g).1
  dispatch a (textview_key keyval state) g = some (gtkui__textview_key_press keyval state g).1
  dispatch a (minibuffer_key keyval state) g = some (on_minibuffer_key_press keyval state g).1
  dispatch a (textview_button event) g = some (gtkui__textview_button_press event g).1
  dispatch a (textview_motion event) g = some (gtkui__textview_motion_notify event g).1
  dispatch a (textview_scroll direction) g =
      some (gtkui__textview_mousewheel is_widget direction g).1

  unfoldable pub session : List Event → Allocation → Gtkui → Option Gtkui
  session [] a g = some g
  session (e ∷ es) a g = elim (dispatch (allocation_after e a) e g) [
    | none ↦ none
    | some g1 ↦ session es (allocation_after e a) (feline e g1)
  ]

  -- The allocation at the end.
  unfoldable pub last_allocation : List Event → Allocation → Allocation
  last_allocation [] a = a
  last_allocation (e ∷ es) a = last_allocation es (allocation_after e a)

-- ===== src/Gtkui/Session/Settled.antt =====
-- What holds of the static variables of src/gtkui.c between two signals.
use feline.Prelude.{◌≡◌, refl, ◌∙◌, Bool, Option, some, List, [], ◌∷◌}
use feline.Gtkui.{
  Gtkui, Allocation, perform, gtkui__close, gtkui__textview_size_allocate, gtkui__textview_realize,
  gtkui__frame_configure,
}
use feline.Gtkui.Calls.{Widget}
use feline.Gtkui.Keys.{
  gtkui__textview_button_press, gtkui__textview_motion_notify, gtkui__textview_mousewheel,
  gtkui__textview_key_press, on_minibuffer_key_press,
}
use feline.Gtkui.Draw.{Toolkit, on_modeline_draw, gtkui__minibuffer_draw}
use feline.Gtkui.Session.{
  Event, allocation_after, frame_configure, frame_delete, textview_realize, textview_size_allocate,
  textview_draw, modeline_draw, minibuffer_draw, textview_key, minibuffer_key, textview_button,
  textview_motion, textview_scroll, dispatch, session, last_allocation,
}
use feline.Gtkui.Session.Kept.{
  IsSettled, Keeps, draw_all-Keeps, IsSettled-Keeps, textview_key-Keeps, minibuffer_key-Keeps,
  button-Keeps, motion-Keeps, scroll-Keeps, size_allocate-IsFitted, size_allocate-contexts,
}
use feline.Gtkui.Session.Drawn.{SessionLaws, draw-IsSettled, minibuffer_draw-IsSettled}

module _ (tk : Allocation → Toolkit) (is_widget : Widget → Bool)
    (feline : Event → Gtkui → Gtkui) where
  module _ (laws : SessionLaws tk is_widget feline) where
    open laws use {feline-Keeps}

    -- A handler that keeps the sizes and the contexts.
    kept :
        (a : Allocation) (f : Gtkui → Gtkui) (g : Gtkui)
        → Keeps f
        → IsSettled a g
        → (g' : Gtkui) × (◌≡◌ {A = Option Gtkui} (some (f g)) (some g')) × IsSettled a g'
    kept a f g k s = (f g, refl, IsSettled-Keeps a f g k s)

    -- Every handler returns, and leaves the sizes and the contexts right.
    dispatch-IsSettled :
        (e : Event) (a : Allocation) (g : Gtkui)
        → IsSettled a g
        → (g' : Gtkui) × (dispatch tk is_widget feline (allocation_after e a) e g ≡ some g')
          × IsSettled (allocation_after e a) g'
    unfolding dispatch perform gtkui__frame_configure gtkui__close gtkui__textview_realize
        on_modeline_draw gtkui__minibuffer_draw
    dispatch-IsSettled frame_configure a g s =
        kept a (λ g. (gtkui__frame_configure g).1) g (λ g. (refl, refl)) s
    dispatch-IsSettled frame_delete a g s = kept a (λ g. (gtkui__close g).1) g (λ g. (refl, refl)) s
    dispatch-IsSettled textview_realize a g s =
        kept a gtkui__textview_realize g (λ g. (refl, refl)) s
    dispatch-IsSettled (textview_size_allocate new) a g (fitted, null) = (
      (gtkui__textview_size_allocate new g).1,
      refl,
      (size_allocate-IsFitted new a g fitted, size_allocate-contexts new g ∙ null),
    )
    dispatch-IsSettled (textview_draw cr) a g s = draw-IsSettled tk is_widget feline laws a cr g s
    dispatch-IsSettled (modeline_draw cr) a g s =
        kept a (λ g. (on_modeline_draw cr g).1) g (λ g. draw_all-Keeps (some cr) _ g) s
    dispatch-IsSettled (minibuffer_draw cr) a g s =
        minibuffer_draw-IsSettled tk is_widget feline laws a cr g s
    dispatch-IsSettled (textview_key keyval state) a g s =
        kept a (λ g. (gtkui__textview_key_press keyval state g).1) g
          (textview_key-Keeps keyval state) s
    dispatch-IsSettled (minibuffer_key keyval state) a g s =
        kept a (λ g. (on_minibuffer_key_press keyval state g).1) g
          (minibuffer_key-Keeps keyval state) s
    dispatch-IsSettled (textview_button event) a g s =
        kept a (λ g. (gtkui__textview_button_press event g).1) g (button-Keeps event) s
    dispatch-IsSettled (textview_motion event) a g s =
        kept a (λ g. (gtkui__textview_motion_notify event g).1) g (motion-Keeps event) s
    dispatch-IsSettled (textview_scroll direction) a g s =
        kept a (λ g. (gtkui__textview_mousewheel is_widget direction g).1) g
          (scroll-Keeps is_widget direction) s

    -- Where the Feline code keeps the sizes and the contexts, the text view has the size that it was told and the font
    -- has a width: from a state in which both contexts are null, and either nothing is measured yet or a cell is as
    -- high as the font needs and the rows and the columns are the most that fit the text view, a session of any
    -- signals never faults, and it ends in such a state, for the last size.
    pub session-IsSettled :
        (events : List Event) (a : Allocation) (g : Gtkui)
        → IsSettled a g
        → (g' : Gtkui) × (session tk is_widget feline events a g ≡ some g')
          × IsSettled (last_allocation tk is_widget feline events a) g'
    unfolding session last_allocation
    session-IsSettled [] a g s = (g, refl, s)
    session-IsSettled (e ∷ es) a g s =
        let (g1, done, s1) = dispatch-IsSettled e a g s in
        let s2 = IsSettled-Keeps (allocation_after e a) (feline e) g1 (feline-Keeps e) s1 in
        let (g', rest, s') = session-IsSettled es (allocation_after e a) (feline e g1) s2 in
        (g', rw (session, done) rest, s')

-- ===== src/Winui/Session/Settled.antt =====
-- What holds of the static variables of src/winui.c between two messages.
use feline.Prelude.{ℕ, ◌≡◌, refl, Bool-cases, Option, some, List, [], ◌∷◌, inl, inr}
use feline.Gtkui.Keys.{is_down}
use feline.Winui.{Winui, perform, is_null, winui__resize}
use feline.Winui.Calls.{
  Message, wm_create, wm_close, wm_destroy, wm_setfocus, wm_killfocus, wm_size, wm_paint, wm_char,
  wm_keydown, wm_syskeydown, wm_lbuttondown, wm_lbuttonup, wm_lbuttondblclk, wm_mousemove,
  wm_mousewheel, wm_feral_update_display, def_window_proc,
}
use feline.Winui.Setup.{Answers, winui__create_font}
use feline.Winui.Messages.{
  Events, zero_returned, default_returned, by_default, is_modifier, is_pressed, is_sys_key,
  vk_control, mk_lbutton, textview_on_paint, minibuffer_on_paint, winui__textview_keydown,
  winui__minibuffer_keydown, winui__frame_wnd_proc, winui__textview_wnd_proc,
  winui__minibuffer_wnd_proc,
}
use feline.Winui.Session.{
  size_after_message, Target, to_frame, to_textview, to_minibuffer, Delivered, size_after,
  procedure, session, last_size,
}
use feline.Winui.Session.Kept.{IsSettled, Settles, settles, IsSettled-Same, if-Same}
use feline.Winui.Session.Sized.{
  SessionLaws, create_font-IsSettled, textview_on_paint-IsSettled, on_size-IsSettled,
  minibuffer_on_paint-IsSettled,
}

module _ (an : Answers) (ev : Events) (feline : Delivered → Winui → Winui) where
  module _ (laws : SessionLaws an ev feline) where
    open laws use {feline-Keeps}

    frame-Settles :
        (size : Option ℕ) (hwnd : ℕ) (msg : Message) (wparam lparam : ℕ) (g : Winui)
        → IsSettled size g
        → Settles
            (size_after
              (record {
                target = to_frame;
                hwnd = hwnd;
                msg = msg;
                wparam = wparam;
                lparam = lparam;
              })
              size)
            (winui__frame_wnd_proc an ev hwnd msg wparam lparam g)
    unfolding winui__frame_wnd_proc winui__resize by_default perform
    frame-Settles size hwnd wm_create wparam lparam g s = (
      zero_returned,
      winui__create_font an hwnd g,
      refl,
      create_font-IsSettled an ev feline laws size hwnd g s,
    )
    frame-Settles size hwnd wm_setfocus wparam lparam g s =
        settles size zero_returned g _
          (if-Same (is_null g.hwnd_textview) g _ _ (refl, refl) (refl, refl)) s
    frame-Settles size hwnd wm_close wparam lparam g s =
        settles size zero_returned g _ (refl, refl) s
    frame-Settles size hwnd wm_destroy wparam lparam g s =
        settles size zero_returned g _ (refl, refl) s
    frame-Settles size hwnd wm_size wparam lparam g s =
        settles size zero_returned g _ (refl, refl) s
    frame-Settles size hwnd msg wparam lparam g s = settles size default_returned g _ (refl, refl) s

    textview-Settles :
        (size : Option ℕ) (hwnd : ℕ) (msg : Message) (wparam lparam : ℕ) (g : Winui)
        → IsSettled size g
        → Settles
            (size_after
              (record {
                target = to_textview;
                hwnd = hwnd;
                msg = msg;
                wparam = wparam;
                lparam = lparam;
              })
              size)
            (winui__textview_wnd_proc an ev hwnd msg wparam lparam g)
    unfolding winui__textview_wnd_proc winui__textview_keydown by_default perform
    textview-Settles size hwnd wm_paint wparam lparam g s = (
      zero_returned,
      textview_on_paint an ev hwnd g,
      refl,
      textview_on_paint-IsSettled an ev feline laws size hwnd g s,
    )
    textview-Settles size hwnd wm_size wparam lparam g s =
        let (g1, sized, s1) = on_size-IsSettled an ev feline laws size lparam g s in
        (
          default_returned,
          perform (def_window_proc hwnd wm_size wparam lparam ∷ []) g1,
          rw (winui__textview_wnd_proc, sized) refl,
          s1,
        )
    textview-Settles size hwnd wm_setfocus wparam lparam g s =
        settles size default_returned g _ (refl, refl) s
    textview-Settles size hwnd wm_killfocus wparam lparam g s =
        settles size default_returned g _ (refl, refl) s
    textview-Settles size hwnd wm_feral_update_display wparam lparam g s =
        settles size default_returned g _ (refl, refl) s
    textview-Settles size hwnd wm_char wparam lparam g s =
        elim (Bool-cases (is_pressed an ev vk_control g)) [
          | inl pressed ↦ rw pressed (settles size zero_returned g _ (refl, refl) s)
          | inr free ↦ rw free (
              settles size default_returned g _
                (if-Same (is_down lparam 0x80000000) g _ _ (refl, refl) (refl, refl)) s)
        ]
    textview-Settles size hwnd wm_keydown wparam lparam g s =
        settles size default_returned g _
          (if-Same (is_modifier wparam) g _ _ (refl, refl) (refl, refl)) s
    textview-Settles size hwnd wm_syskeydown wparam lparam g s =
        settles size default_returned g _
          (if-Same (is_sys_key an ev wparam lparam) g _ _ (refl, refl) (refl, refl)) s
    textview-Settles size hwnd wm_lbuttondown wparam lparam g s =
        settles size zero_returned g _ (refl, refl) s
    textview-Settles size hwnd wm_lbuttonup wparam lparam g s =
        settles size zero_returned g _ (refl, refl) s
    textview-Settles size hwnd wm_lbuttondblclk wparam lparam g s =
        settles size zero_returned g _ (refl, refl) s
    textview-Settles size hwnd wm_mousemove wparam lparam g s =
        settles size zero_returned g _
          (if-Same (is_down wparam mk_lbutton) g _ _ (refl, refl) (refl, refl)) s
    textview-Settles size hwnd wm_mousewheel wparam lparam g s =
        settles size zero_returned g _ (refl, refl) s
    textview-Settles size hwnd msg wparam lparam g s =
        settles size default_returned g _ (refl, refl) s

    minibuffer-Settles :
        (size : Option ℕ) (hwnd : ℕ) (msg : Message) (wparam lparam : ℕ) (g : Winui)
        → IsSettled size g
        → Settles size (winui__minibuffer_wnd_proc an ev hwnd msg wparam lparam g)
    unfolding winui__minibuffer_wnd_proc winui__minibuffer_keydown by_default perform
    minibuffer-Settles size hwnd wm_paint wparam lparam g s = (
      zero_returned,
      minibuffer_on_paint an ev hwnd g,
      refl,
      minibuffer_on_paint-IsSettled an ev feline laws size hwnd g s,
    )
    minibuffer-Settles size hwnd wm_keydown wparam lparam g s =
        settles size default_returned g _
          (if-Same (is_modifier wparam) g _ _ (refl, refl) (refl, refl)) s
    minibuffer-Settles size hwnd wm_syskeydown wparam lparam g s =
        settles size default_returned g _
          (if-Same (is_sys_key an ev wparam lparam) g _ _ (refl, refl) (refl, refl)) s
    minibuffer-Settles size hwnd msg wparam lparam g s =
        settles size default_returned g _ (refl, refl) s

    procedure-Settles :
        (t : Target) (hwnd : ℕ) (msg : Message) (wparam lparam : ℕ) (size : Option ℕ) (g : Winui)
        → IsSettled size g
        → Settles
            (size_after_message t msg lparam size)
            (procedure an ev feline t hwnd msg wparam lparam g)
    unfolding procedure
    procedure-Settles to_frame hwnd msg wparam lparam size g s =
        frame-Settles size hwnd msg wparam lparam g s
    procedure-Settles to_textview hwnd msg wparam lparam size g s =
        textview-Settles size hwnd msg wparam lparam g s
    procedure-Settles to_minibuffer hwnd msg wparam lparam size g s =
        minibuffer-Settles size hwnd msg wparam lparam g s

    -- Where the Feline code keeps the sizes and the contexts, and a font has a width and a height: from a state in
    -- which a character has a size, the rows and the columns are the most that fit the size that the text view was
    -- last told since the font was made, if it was told one, and both device contexts are null, a session of any
    -- messages to the three windows never faults, and it ends in such a state, for the last size.
    pub session-Settles :
        (ds : List Delivered) (size : Option ℕ) (g : Winui)
        → IsSettled size g
        → (g' : Winui) × (session an ev feline ds g ≡ some g')
          × IsSettled (last_size an ev feline ds size) g'
    unfolding session last_size
    session-Settles [] size g s = (g, refl, s)
    session-Settles (d ∷ ds) size g s =
        let (ret, g1, done, s1) =
          procedure-Settles d.target d.hwnd d.msg d.wparam d.lparam size g s in
        let s2 = IsSettled-Same (size_after d size) g1 (feline d g1) (feline-Keeps d g1) s1 in
        let (g', rest, s') = session-Settles ds (size_after d size) (feline d g1) s2 in
        (g', rw (session, done) rest, s')

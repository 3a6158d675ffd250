-- ===== src/Winui/Keys.antt =====
-- The codes of the keys that the window procedures of src/winui.c send.
use feline.Prelude.{ℕ, ◌^◌, ◌≡◌, refl, true, [], ◌∷◌}
use feline.Gtkui.Keys.{is_down, with_modifiers, gdk_mod1_mask, gdk_control_mask, gdk_shift_mask}
use feline.Winui.{Winui, perform}
use feline.Winui.Calls.{wm_keydown, wm_syskeydown, send_textview_keydown, send_minibuffer_keydown}
use feline.Winui.Setup.{Answers}
use feline.Winui.Messages.{
  Events, vk_menu, vk_control, vk_shift, is_pressed, with_key_states, winui__textview_keydown,
  winui__minibuffer_keydown, winui__textview_wnd_proc, winui__minibuffer_wnd_proc, by_default,
}

module _ (an : Answers) (ev : Events) where
  -- Where the keys Alt, Ctrl and Shift are pressed as the state of a GDK event says, the code that Windows sends
  -- for a key value is the code that GTK sends.
  pub with_key_states-with_modifiers :
      (key state : ℕ) (g : Winui)
      → is_pressed an ev vk_menu g ≡ is_down state gdk_mod1_mask
      → is_pressed an ev vk_control g ≡ is_down state gdk_control_mask
      → is_pressed an ev vk_shift g ≡ is_down state gdk_shift_mask
      → with_key_states an ev key g ≡ with_modifiers key state
  unfolding with_key_states with_modifiers
  with_key_states-with_modifiers key state g alt ctrl shift = rw (alt, ctrl, shift) refl

  -- Pressing the Shift key alone sends nothing to either window. Pressed while Alt is held, as a WM_SYSKEYDOWN
  -- with its context code, it sends the code of a key to the window that has it.
  pub wnd_proc-shift :
      (hwnd lparam : ℕ) (g : Winui)
      → is_down lparam (2 ^ 29) ≡ true
      → let code = with_key_states an ev vk_shift g in
        let textview_proc = winui__textview_wnd_proc an ev hwnd in
        let minibuffer_proc = winui__minibuffer_wnd_proc an ev hwnd in
        ((textview_proc wm_keydown vk_shift lparam g ≡ by_default hwnd wm_keydown vk_shift lparam g)
          × (minibuffer_proc wm_keydown vk_shift lparam g
              ≡ by_default hwnd wm_keydown vk_shift lparam g))
        × (textview_proc wm_syskeydown vk_shift lparam g
            ≡ by_default hwnd wm_syskeydown vk_shift lparam
                (perform (send_textview_keydown code ∷ []) g))
        × (minibuffer_proc wm_syskeydown vk_shift lparam g
            ≡ by_default hwnd wm_syskeydown vk_shift lparam
                (perform (send_minibuffer_keydown code ∷ []) g))
  unfolding winui__textview_wnd_proc winui__minibuffer_wnd_proc winui__textview_keydown
      winui__minibuffer_keydown
  wnd_proc-shift hwnd lparam g context = ((refl, refl), rw context refl, rw context refl)

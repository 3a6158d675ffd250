-- ===== src/Tests/Winui.antt =====
-- src/winui.c on small states, where every handle is 5 and every call succeeds but the making of a font.
use feline.Prelude.{◌≡◌, ◌↔◌, refl, arith, true, false, none, some, List, [], ◌∷◌, ◌++◌, pos}
use feline.Gtkui.Keys.{with_modifiers}
use feline.Winui.{Winui, winui__resize}
use feline.Winui.Calls.{Place, move_window, wm_size, wm_paint, wm_char, set_focus}
use feline.Winui.Setup.{Answers, textview_place, modeline_place, minibuffer_place}
use feline.Winui.Messages.{Events, with_key_states}
use feline.Winui.Loop.{Posted, quit, winui__minibuffer_main, dispatch_all}
use feline.Winui.Clipboard.{Clipboard}
use feline.Winui.Layout.{IsTiling, area, winui__resize_lem}
use feline.Winui.Lost.{messages, entered, winui__minibuffer_main-drops}
use feline.Winui.Keys.{with_key_states-with_modifiers}
use feline.Winui.Session.{Delivered, to_textview, to_minibuffer, session, last_size}
use feline.Winui.Session.Kept.{IsSettled}
use feline.Winui.Session.Sized.{SessionLaws}
use feline.Winui.Session.Settled.{session-Settles}

abbrev start : Winui
start = record {
  hfont_normal = 0;
  char_width = 0;
  char_height = 0;
  textview_rows = 0;
  textview_columns = 0;
  hwnd_frame = 0;
  hwnd_textview = 0;
  hdc_textview = 0;
  hwnd_modeline = 0;
  hwnd_minibuffer = 0;
  hdc_minibuffer = 0;
  rgb_textview_fg = 0xc0c0c0;
  rgb_textview_bg = 0;
  rgb_minibuffer_fg = 0xc0c0c0;
  rgb_minibuffer_bg = 0;
  minibuffer_exit = false;
  initialized = false;
  calls = [];
}

abbrev running : Winui
running = record start { char_width = 8; char_height = 20; hwnd_textview = 2 }

abbrev fives : Answers
fives = record {
  registers = λ w g. true;
  brush = λ g. 5;
  create = λ w p g. (5, g);
  desktop_rect = λ g. area 1920 1080;
  client_rect = λ g. area 960 730;
  font = λ g. 0;
  stock_font = λ g. 5;
  dc = λ g. 5;
  old_font = λ g. 5;
  text_face_differs = λ g. false;
  metrics = λ g. (8, 20);
}

-- Every key is held.
abbrev held : Events
held = record {
  key_state = λ key g. 0x8000;
  paint_dc = λ g. 5;
  textview_paint = λ g. g;
  minibuffer_paint = λ g. g;
}

winui__resize_lem_example :
    (p : Place) × (q : Place) × (r : Place) × ((winui__resize (area 960 730) running).calls
      ≡ move_window 0 r ∷ move_window 0 q ∷ move_window 2 p ∷ [])
    × ((p.width ≡ pos 960) × (q.width ≡ pos 960) × (r.width ≡ pos 960))
    × (IsTiling (pos 0) (pos 730) p q r ↔ (running.char_height ≡ 16))
    × IsTiling
        (pos 0)
        (pos 730)
        (textview_place (area 960 730) 20)
        (modeline_place (area 960 730) 20)
        (minibuffer_place (area 960 730) 20)
winui__resize_lem_example = winui__resize_lem 960 730 running

abbrev board : Clipboard
board = record {
  has_text = λ g. true;
  opens = λ g. true;
  clipboard_data = λ g. 21;
  locked_text = λ h g. some (65 ∷ []);
  mallocs = λ n g. true;
  allocated = λ n g. 22;
  takes = λ s g. true;
}

-- A message that is sent to the minibuffer makes it exit, and no other does.
abbrev last_key : Posted
last_key = record { hwnd = 4; msg = wm_char; wparam = 13; lparam = 0 }

abbrev exits : Posted → Winui → Winui
exits m g = record g { minibuffer_exit = true }

winui__minibuffer_main-drops_example :
    let last = dispatch_all exits (last_key ∷ []) (entered exits running) in
    (winui__minibuffer_main exits (messages (last_key ∷ [])) running ≡ none)
    × (winui__minibuffer_main exits (messages (last_key ∷ []) ++ (quit ∷ [])) running
        ≡ some ([], record last { calls = set_focus last.hwnd_textview ∷ last.calls }))
winui__minibuffer_main-drops_example =
    winui__minibuffer_main-drops exits (last_key ∷ []) quit [] running (refl, refl)

with_key_states-with_modifiers_example :
    with_key_states fives held 65 running ≡ with_modifiers 65 13
with_key_states-with_modifiers_example =
    with_key_states-with_modifiers fives held 65 13 running refl refl refl

-- The Feline code answers a message with nothing.
abbrev silent : Delivered → Winui → Winui
silent d g = g

abbrev silent_laws : SessionLaws fives held silent
silent_laws = record {
  textview_paint-Keeps = λ g. (refl, refl);
  minibuffer_paint-Keeps = λ g. (refl, refl);
  feline-Keeps = λ d g. (refl, refl);
  font_size = λ g. (omega arith, omega arith);
}

abbrev deliveries : List Delivered
deliveries =
    record { target = to_textview; hwnd = 2; msg = wm_size; wparam = 0; lparam = 0x2000300 }
    ∷ record { target = to_textview; hwnd = 2; msg = wm_paint; wparam = 0; lparam = 0 }
    ∷ record { target = to_minibuffer; hwnd = 4; msg = wm_char; wparam = 65; lparam = 0 }
    ∷ []

session-Settles_example :
    (g' : Winui) × (session fives held silent deliveries running ≡ some g')
    × IsSettled (last_size fives held silent deliveries none) g'
session-Settles_example =
    session-Settles fives held silent silent_laws deliveries none running
      (omega arith, omega arith, tt, refl)

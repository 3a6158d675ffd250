-- ===== src/Tests/Gtkui.antt =====
-- src/gtkui.c on small states and events.
use feline.Prelude.{ℕ, ◌≡◌, refl, arith, Bool, true, none, some, List, [], ◌∷◌, pos, inl}
use feline.Gtkui.{Gtkui, Allocation, gtkui__textview_size_allocate}
use feline.Gtkui.Keys.{
  with_modifiers, add_flag, is_down, gdk_mod1_mask, gdk_control_mask, gdk_shift_mask,
}
use feline.Gtkui.Draw.{FontExtents, Toolkit}
use feline.Gtkui.Modifiers.{with_modifiers-injective}
use feline.Gtkui.Session.{
  Event, textview_size_allocate, textview_draw, textview_key, minibuffer_draw, session,
  last_allocation,
}
use feline.Gtkui.Session.Kept.{IsSettled}
use feline.Gtkui.Session.Drawn.{SessionLaws}
use feline.Gtkui.Session.Settled.{session-IsSettled}
use feline.Gtkui.Calls.{Widget}

abbrev start : Gtkui
start = record {
  ascent = 12;
  descent = 3;
  char_width = 8;
  char_height = 16;
  textview_rows = 0;
  textview_columns = 0;
  cr_textview = none;
  cr_minibuffer = none;
  rgb_textview_fg = 0xc0c0c0;
  rgb_textview_bg = 0;
  mode_line_text = [];
  textview_caret_row = pos 0;
  textview_caret_column = pos 0;
  minibuffer_caret_row = pos 0;
  minibuffer_caret_column = pos 0;
  calls = [];
}

abbrev default_size : Allocation
default_size = record { width = 800; height = 556 }

abbrev font : FontExtents
font = record { ascent = 12; descent = 3; max_x_advance = 8 }

abbrev idle : Toolkit
idle = record {
  gtkui_textview_paint = λ g. g;
  gtkui_minibuffer_paint = λ g. g;
  is_focus = λ w g. true;
  font_extents = λ g. font;
  get_allocation = λ g. default_size;
}

rows_run : (gtkui__textview_size_allocate default_size start).1.textview_rows ≡ 34
unfolding gtkui__textview_size_allocate
rows_run = refl

-- Alt and Control with `x`.
code_run : with_modifiers 120 12 ≡ 0x30078
unfolding with_modifiers add_flag
code_run = refl

with_modifiers-injective_example :
    (◌≡◌ {A = ℕ} 120 120)
    × (is_down 12 gdk_mod1_mask ≡ is_down 12 gdk_mod1_mask)
    × (is_down 12 gdk_control_mask ≡ is_down 12 gdk_control_mask)
    × (is_down 12 gdk_shift_mask ≡ is_down 12 gdk_shift_mask)
with_modifiers-injective_example =
    with_modifiers-injective 120 120 12 12 (omega arith) (omega arith) refl

-- A font with a width, and a text view that has the size that it is given.
abbrev sized : Allocation → Toolkit
sized a = record idle { get_allocation = λ g. a }

abbrev anything : Widget → Bool
anything w = true

-- The Feline code answers a key with nothing.
abbrev silent : Event → Gtkui → Gtkui
silent e g = g

abbrev silent_laws : SessionLaws sized anything silent
silent_laws = record {
  textview_paint-Keeps = λ a g. (refl, refl);
  minibuffer_paint-Keeps = λ a g. (refl, refl);
  feline-Keeps = λ e g. (refl, refl);
  allocation_lem = λ a g. refl;
  font_width = λ a g. omega arith;
}

abbrev unmeasured : Gtkui
unmeasured = record start { char_width = 0; char_height = 0 }

abbrev large : Allocation
large = record { width = 1600; height = 1200 }

abbrev signals : List Event
signals =
    textview_draw 9
    ∷ textview_key 120 4
    ∷ textview_size_allocate large
    ∷ minibuffer_draw 9
    ∷ textview_draw 9
    ∷ []

session-IsSettled_example :
    (g' : Gtkui) × (session sized anything silent signals default_size unmeasured ≡ some g')
    × IsSettled (last_allocation sized anything silent signals default_size) g'
session-IsSettled_example =
    session-IsSettled sized anything silent silent_laws signals default_size unmeasured
      (inl (refl, refl), refl)

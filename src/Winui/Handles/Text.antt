-- ===== src/Winui/Handles/Text.antt =====
-- Writing text and clearing lines in src/winui.c: what is taken is given back, and used in between.
use feline.Prelude.{ℕ, List, [], ◌∷◌, ℤ}
use feline.Winui.{Winui}
use feline.Winui.Calls.{
  Call, get_dc, release_dc, select_object, set_text_color, set_bk_color, hide_caret, show_caret,
  text_out,
}

-- Text in the colours of a window that is not painted.
abbrev written : ℕ → ℕ → ℕ → ℕ → ℕ → ℤ → ℤ → List ℕ → List Call
written w hdc font fg bg x y s =
    get_dc w hdc
    ∷ select_object hdc font
    ∷ set_text_color hdc fg
    ∷ set_bk_color hdc bg
    ∷ hide_caret w
    ∷ text_out hdc x y s
    ∷ show_caret w
    ∷ release_dc w hdc
    ∷ []

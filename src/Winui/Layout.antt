-- ===== src/Winui/Layout.antt =====
-- Where src/winui.c puts the windows of the frame.
use feline.Prelude.{ℕ, ◌≡◌, ◌↔◌, refl, arith, ◌∷◌, ℤ, pos, ◌+ℤ◌}
use feline.Winui.{Winui, perform, winui__resize}
use feline.Winui.Setup.{textview_place, modeline_place, minibuffer_place}
use feline.Winui.Calls.{Rect, Place, move_window}

-- The three windows lie below each other, without gap or overlap, from the top to the bottom.
abbrev pub IsTiling : ℤ → ℤ → Place → Place → Place → Type 0
IsTiling top bottom p q r =
    (p.y ≡ top) × (p.y +ℤ p.height ≡ q.y) × (q.y +ℤ q.height ≡ r.y) × (r.y +ℤ r.height ≡ bottom)

-- A client area, whose upper left corner is always at (0, 0).
abbrev pub area : ℕ → ℕ → Rect
area width height = record { left = pos 0; top = pos 0; right = pos width; bottom = pos height }

-- `winui__resize` moves the text view, the modeline and the minibuffer, in this order, all as wide as the frame.
-- They fill the frame from top to bottom, without gap or overlap, exactly when a character is 16 pixels high;
-- the places where the windows are created fill it at every height of a character.
pub winui__resize_lem :
    (width height : ℕ) (g : Winui)
    → (p : Place) × (q : Place) × (r : Place) × ((winui__resize (area width height) g).calls
        ≡ move_window g.hwnd_minibuffer r
          ∷ move_window g.hwnd_modeline q
          ∷ move_window g.hwnd_textview p
          ∷ g.calls)
      × ((p.width ≡ pos width) × (q.width ≡ pos width) × (r.width ≡ pos width))
      × (IsTiling (pos 0) (pos height) p q r ↔ (g.char_height ≡ 16))
      × IsTiling
          (pos 0)
          (pos height)
          (textview_place (area width height) g.char_height)
          (modeline_place (area width height) g.char_height)
          (minibuffer_place (area width height) g.char_height)
unfolding winui__resize perform
winui__resize_lem width height g =
    (_, _, _, refl, (ground arith, refl, refl), ground arith, ground arith)

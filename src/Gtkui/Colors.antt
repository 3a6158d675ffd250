-- ===== src/Gtkui/Colors.antt =====
-- The components of a colour.
use feline.Prelude.{ℕ, ◌<◌, ◌≡◌, arith}
use feline.Gtkui.{rgb, rgb_red, rgb_green, rgb_blue}

-- The components of a colour made by `RGB` from three bytes are these bytes.
pub rgb_components :
    (r g b : ℕ)
    → r < 256
    → g < 256
    → b < 256
    → (rgb_red (rgb r g b) ≡ r) × (rgb_green (rgb r g b) ≡ g) × (rgb_blue (rgb r g b) ≡ b)
unfolding rgb rgb_red rgb_green rgb_blue
rgb_components r g b hr hg hb = (omega arith, omega arith, omega arith)

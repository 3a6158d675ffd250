-- ===== src/Winui/Session/Kept.antt =====
-- What the window procedures of src/winui.c keep of the sizes and of the device contexts.
use feline.Prelude.{
  ℕ, ◌<◌, ◌≡◌, refl, sym, ◌∙◌, subst, Bool, true, false, Option, none, some, if◌then◌else◌,
}
use feline.Gtkui.Layout.{Fits}
use feline.Winui.{Winui}
use feline.Winui.Messages.{Returned, hiword, loword}

abbrev pub Metrics : Type 0
Metrics = ℕ × ℕ × ℕ × ℕ

abbrev pub metrics : Winui → Metrics
metrics g = (g.char_width, g.char_height, g.textview_rows, g.textview_columns)

abbrev pub contexts : Winui → ℕ × ℕ
contexts g = (g.hdc_textview, g.hdc_minibuffer)

-- The rows and the columns are the most that fit the size, where one is known.
abbrev pub FitsSize : Option ℕ → Metrics → Type 0
FitsSize none m = Unit {0}
FitsSize (some lparam) (width, height, rows, columns) =
    Fits rows height (hiword lparam) × Fits columns width (loword lparam)

-- Between two messages: a character has a size, the rows and the columns are right, and both contexts are null.
abbrev pub IsSettled : Option ℕ → Winui → Type 0
IsSettled size g =
    (0 < g.char_width) × (0 < g.char_height) × FitsSize size (metrics g) × (contexts g ≡ (0, 0))

abbrev IsPositive : Metrics → Type 0
IsPositive (width, height, rows, columns) = (0 < width) × (0 < height)

-- The procedure returns, and leaves the sizes and the contexts right.
abbrev pub Settles : Option ℕ → Option (Returned × Winui) → Type 0
Settles size result =
    (ret : Returned) × (g' : Winui) × (result ≡ some (ret, g')) × IsSettled size g'

-- A state with the same sizes and contexts.
abbrev pub Same : Winui → Winui → Type 0
Same g g' = (metrics g' ≡ metrics g) × (contexts g' ≡ contexts g)

pub IsSettled-Same :
    (size : Option ℕ) (g g' : Winui) → Same g g' → IsSettled size g → IsSettled size g'
IsSettled-Same size g g' (m, c) (wide, high, fits, null) =
    let (wide', high') = subst IsPositive (sym m) (wide, high) in
    (wide', high', subst (FitsSize size) (sym m) fits, c ∙ null)

pub settles :
    (size : Option ℕ) (ret : Returned) (g g' : Winui)
    → Same g g'
    → IsSettled size g
    → Settles size (some (ret, g'))
settles size ret g g' same s = (ret, g', refl, IsSettled-Same size g g' same s)

-- A test that either way leaves the same sizes and contexts.
pub if-Same : (c : Bool) (g a b : Winui) → Same g a → Same g b → Same g (if c then a else b)
if-Same true g a b ka kb = ka
if-Same false g a b ka kb = kb

-- A change that keeps sizes and contexts.
abbrev pub Keeps : (Winui → Winui) → Type 0
Keeps f = (g : Winui) → Same g (f g)

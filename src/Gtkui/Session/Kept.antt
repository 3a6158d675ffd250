-- ===== src/Gtkui/Session/Kept.antt =====
-- What the handlers of src/gtkui.c keep of the sizes and of the contexts.
use feline.Prelude.{
  ℕ, ◌+◌, ◌<◌, ◌≡◌, ◌⊎◌, inl, inr, refl, sym, ◌∙◌, subst, arith, Bool, false, Bool-cases, Option,
  none, List, [], ◌∷◌, ◌==◌,
}
use feline.Gtkui.{
  Gtkui, Allocation, perform, gtkui__textview_invalidate, gtkui__textview_size_allocate,
}
use feline.Gtkui.Calls.{Call, Command, Widget, textview, modeline, draw}
use feline.Gtkui.Keys.{
  ButtonEvent, ScrollDirection, scroll_up, scroll_down, scroll_other, gtkui__textview_keydown,
  gtkui__textview_button_press, gtkui__textview_motion_notify, gtkui__textview_mousewheel,
  gtkui__textview_key_press, on_minibuffer_key_press,
}
use feline.Gtkui.Text.{draw_all}
use feline.Gtkui.Layout.{Fits, quotient-Fits}

-- The sizes that the handlers keep, and the contexts.
abbrev pub Metrics : Type 0
Metrics = ℕ × ℕ × ℕ × ℕ × ℕ × ℕ

abbrev pub metrics : Gtkui → Metrics
metrics g = (g.ascent, g.descent, g.char_width, g.char_height, g.textview_rows, g.textview_columns)

abbrev pub contexts : Gtkui → Option ℕ × Option ℕ
contexts g = (g.cr_textview, g.cr_minibuffer)

-- Nothing is measured yet; or the cell is as high as the font needs, and the rows and the columns are the most that fit
-- the allocation.
abbrev pub IsFitted : Allocation → Metrics → Type 0
IsFitted a (ascent, descent, width, height, rows, columns) =
    ((width ≡ 0) × (height ≡ 0))
    ⊎ ((0 < width)
        × (height ≡ ascent + descent + 1)
        × Fits rows height a.height
        × Fits columns width a.width)

-- Between two signals: the sizes are right, and both contexts are null.
abbrev pub IsSettled : Allocation → Gtkui → Type 0
IsSettled a g = IsFitted a (metrics g) × (contexts g ≡ (none, none))

-- A change that keeps sizes and contexts.
abbrev pub Keeps : (Gtkui → Gtkui) → Type 0
Keeps f = (g : Gtkui) → (metrics (f g) ≡ metrics g) × (contexts (f g) ≡ contexts g)

pub perform-Keeps : (cs : List Call) → Keeps (perform cs)
unfolding perform
perform-Keeps [] g = (refl, refl)
perform-Keeps (c ∷ cs) g = perform-Keeps cs (record g { calls = c ∷ g.calls })

pub draw_all-Keeps : (cr : Option ℕ) (cs : List Command) → Keeps (draw_all cr cs)
unfolding draw_all perform
draw_all-Keeps cr [] g = (refl, refl)
draw_all-Keeps cr (c ∷ cs) g = draw_all-Keeps cr cs (record g { calls = draw cr c ∷ g.calls })

pub Keeps-trans : (f h : Gtkui → Gtkui) → Keeps f → Keeps h → Keeps (λ g. h (f g))
Keeps-trans f h kf kh g = let (m, c) = kf g in let (m', c') = kh (f g) in (m' ∙ m, c' ∙ c)

pub IsSettled-Keeps :
    (a : Allocation) (f : Gtkui → Gtkui) (g : Gtkui) → Keeps f → IsSettled a g → IsSettled a (f g)
IsSettled-Keeps a f g k (fitted, null) =
    let (m, c) = k g in (subst (IsFitted a) (sym m) fitted, c ∙ null)

-- The handlers of keys and of the mouse.
pub invalidate-Keeps : (is_widget : Widget → Bool) → Keeps (gtkui__textview_invalidate is_widget)
unfolding gtkui__textview_invalidate perform
invalidate-Keeps is_widget g = elim (Bool-cases (is_widget textview)) [
  | inl t ↦ elim (Bool-cases (is_widget modeline)) [
    | inl m ↦ rw (t, m) (refl, refl)
    | inr m ↦ rw (t, m) (refl, refl)
  ]
  | inr t ↦ elim (Bool-cases (is_widget modeline)) [
    | inl m ↦ rw (t, m) (refl, refl)
    | inr m ↦ rw (t, m) (refl, refl)
  ]
]

pub textview_key-Keeps :
    (keyval state : ℕ) → Keeps (λ g. (gtkui__textview_key_press keyval state g).1)
unfolding gtkui__textview_key_press gtkui__textview_keydown perform
textview_key-Keeps keyval state g = (ground arith, ground arith)

pub minibuffer_key-Keeps :
    (keyval state : ℕ) → Keeps (λ g. (on_minibuffer_key_press keyval state g).1)
unfolding on_minibuffer_key_press perform
minibuffer_key-Keeps keyval state g = (ground arith, ground arith)

pub button-Keeps : (event : ButtonEvent) → Keeps (λ g. (gtkui__textview_button_press event g).1)
unfolding gtkui__textview_button_press perform
button-Keeps event g = (ground arith, ground arith)

pub motion-Keeps : (event : ButtonEvent) → Keeps (λ g. (gtkui__textview_motion_notify event g).1)
unfolding gtkui__textview_motion_notify perform
motion-Keeps event g = (ground arith, ground arith)

pub scroll-Keeps :
    (is_widget : Widget → Bool) (direction : ScrollDirection)
    → Keeps (λ g. (gtkui__textview_mousewheel is_widget direction g).1)
unfolding gtkui__textview_mousewheel perform
scroll-Keeps is_widget scroll_up g = invalidate-Keeps is_widget _
scroll-Keeps is_widget scroll_down g = invalidate-Keeps is_widget _
scroll-Keeps is_widget scroll_other g = invalidate-Keeps is_widget g

-- The handler of a new size makes the rows and the columns fit it.
pub size_allocate-IsFitted :
    (a old : Allocation) (g : Gtkui)
    → IsFitted old (metrics g)
    → IsFitted a (metrics (gtkui__textview_size_allocate a g).1)
unfolding gtkui__textview_size_allocate
size_allocate-IsFitted a old g (inl (narrow, flat)) = rw (narrow, flat) (inl (refl, refl))
size_allocate-IsFitted a old g (inr (wide, high, rows, columns)) =
    let w : (g.char_width == 0) ≡ false = ground arith in
    let h : (g.char_height == 0) ≡ false = ground arith in
    rw (h, w)
      (inr (
        wide,
        high,
        quotient-Fits a.height g.char_height (omega arith),
        quotient-Fits a.width g.char_width wide,
      ))

pub size_allocate-contexts :
    (a : Allocation) (g : Gtkui) → contexts (gtkui__textview_size_allocate a g).1 ≡ contexts g
unfolding gtkui__textview_size_allocate
size_allocate-contexts a g = ground arith

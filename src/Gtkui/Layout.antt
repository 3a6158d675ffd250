-- ===== src/Gtkui/Layout.antt =====
-- How many rows and columns of text fit the text view.
use feline.Prelude.{
  ℕ, ◌+◌, ◌*◌, ◌/◌, ◌<◌, ◌≤◌, ◌≡◌, ◌⊎◌, inl, inr, refl, Bool-cases, none, some, ◌==◌, arith,
}
use feline.Gtkui.{Gtkui, Allocation, gtkui__textview_size_allocate}
use feline.Gtkui.Draw.{FontExtents, measure}

-- `count` cells of the size `cell` fit `space`, and one more does not.
abbrev pub Fits : ℕ → ℕ → ℕ → Type 0
Fits count cell space = (count * cell ≤ space) × (space < (count + 1) * cell)

pub quotient-Fits : (space cell : ℕ) → 0 < cell → Fits (space / cell) cell space
quotient-Fits space cell positive = omega arith

-- After the widget has its size, the rows and the columns are the most that fit it, where the height or the
-- width of a cell is known; a number whose cell size is still 0 is left as it was.
pub gtkui__textview_size_allocate_lem :
    (allocation : Allocation) (g : Gtkui)
    → let g' = (gtkui__textview_size_allocate allocation g).1 in
      ((g.char_height ≡ 0) × (g'.textview_rows ≡ g.textview_rows)
        ⊎ (0 < g.char_height) × Fits g'.textview_rows g.char_height allocation.height)
      × ((g.char_width ≡ 0) × (g'.textview_columns ≡ g.textview_columns)
          ⊎ (0 < g.char_width) × Fits g'.textview_columns g.char_width allocation.width)
unfolding gtkui__textview_size_allocate
gtkui__textview_size_allocate_lem allocation g = elim (Bool-cases (g.char_height == 0)) [
  | inl h ↦ elim (Bool-cases (g.char_width == 0)) [
    | inl w ↦ rw (h, w) (inl (ground arith, refl), inl (ground arith, refl))
    | inr w ↦
        rw (h, w) (inl (ground arith, refl), inr (ground arith, quotient-Fits _ _ (ground arith)))
  ]
  | inr h ↦ elim (Bool-cases (g.char_width == 0)) [
    | inl w ↦
        rw (h, w) (inr (ground arith, quotient-Fits _ _ (ground arith)), inl (ground arith, refl))
    | inr w ↦
        rw (h, w)
          (
            inr (ground arith, quotient-Fits _ _ (ground arith)),
            inr (ground arith, quotient-Fits _ _ (ground arith)),
          )
  ]
]

-- The sizes agree: nothing is measured yet, or a cell is as high as the font needs.
abbrev pub IsMeasured : Gtkui → Type 0
IsMeasured g =
    ((g.char_width ≡ 0) × (g.char_height ≡ 0))
    ⊎ ((0 < g.char_width) × (g.char_height ≡ g.ascent + g.descent + 1))

-- Measuring a font faults where the font has no width; else the sizes agree, and the rows and columns are the
-- most that fit the widget.
pub measure_lem :
    (fe : FontExtents) (allocation : Allocation) (g : Gtkui)
    → ((fe.max_x_advance ≡ 0) × (measure fe allocation g ≡ none))
      ⊎ ((g' : Gtkui) × (measure fe allocation g ≡ some g')
          × IsMeasured g'
          × Fits g'.textview_rows g'.char_height allocation.height
          × Fits g'.textview_columns g'.char_width allocation.width)
unfolding measure
measure_lem fe allocation g = elim (Bool-cases (fe.max_x_advance == 0)) [
  | inl e ↦ inl (ground arith, rw e refl)
  | inr e ↦
      let wide : 0 < fe.max_x_advance = ground arith in
      inr (
        record g {
          ascent = fe.ascent;
          descent = fe.descent;
          char_width = fe.max_x_advance;
          char_height = fe.ascent + fe.descent + 1;
          textview_rows = allocation.height / (fe.ascent + fe.descent + 1);
          textview_columns = allocation.width / fe.max_x_advance;
        },
        rw e refl,
        inr (wide, refl),
        quotient-Fits _ _ (omega arith),
        quotient-Fits _ _ wide,
      )
]

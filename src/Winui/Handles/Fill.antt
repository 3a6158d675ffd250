-- ===== src/Winui/Handles/Fill.antt =====
-- Clearing lines in src/winui.c: what is taken is given back, and used in between.
use feline.Prelude.{
  if◌then◌else◌, ℕ, ◌≡◌, inl, inr, refl, arith, true, false, Bool-cases, List, [], ◌∷◌, ℤ, ◌==◌,
  some,
}
use feline.Winui.{Winui, perform, is_null}
use feline.Winui.Calls.{
  Call, get_dc, release_dc, create_solid_brush, fill_rect, delete_object, Rect,
}
use feline.Winui.Text.{winui__textview_clear_eol, winui__minibuffer_clear_eol, rest_of_row}
use feline.Winui.Handles.{nothing, obeys, follows, effects, Leaves}

-- The context to draw on: that which the window is painted with, or a new one.
abbrev pub context : ℕ → ℕ → ℕ
context cr hdc = if is_null cr then hdc else cr

-- A rectangle that is filled with a new brush.
abbrev filled : ℕ → Rect → ℕ → List Call → List Call
filled hdc rect brush rest = create_solid_brush brush ∷ fill_rect hdc rect brush ∷ rest

painted-follows :
    (w cr brush : ℕ) (rect : Rect)
    → is_null cr ≡ false
    → follows w cr (filled cr rect brush (delete_object brush ∷ [])) nothing ≡ some nothing
unfolding follows obeys
painted-follows w cr brush rect painting = ground arith

failed-follows :
    (w cr hdc brush : ℕ) (rect : Rect)
    → is_null cr ≡ true
    → is_null hdc ≡ true
    → follows w cr (get_dc w hdc ∷ filled hdc rect brush (delete_object brush ∷ [])) nothing
      ≡ some nothing
unfolding follows obeys
failed-follows w cr hdc brush rect away failed = ground arith

filled-follows :
    (w cr hdc brush : ℕ) (rect : Rect)
    → is_null hdc ≡ false
    → follows w cr
        (get_dc w hdc ∷ filled hdc rect brush (release_dc w hdc ∷ delete_object brush ∷ []))
        nothing
      ≡ some nothing
unfolding follows obeys
filled-follows w cr hdc brush rect got = ground arith

pub textview_clear_eol-Leaves :
    (new_dc brush : ℕ) (x y : ℤ) (g : Winui)
    → Leaves g.hwnd_textview g.hdc_textview
        (fill_rect (context g.hdc_textview new_dc) (rest_of_row x y g) brush ∷ [])
        nothing
        g
        (winui__textview_clear_eol new_dc brush x y g)
unfolding winui__textview_clear_eol perform effects
textview_clear_eol-Leaves new_dc brush x y g =
    let rect = rest_of_row x y g in
    elim (Bool-cases (is_null g.hdc_textview)) [
      | inr painting ↦
          let same : (g.hdc_textview == g.hdc_textview) ≡ true = ground arith in
          rw (winui__textview_clear_eol, painting, same)
            (record {
              made = filled g.hdc_textview rect brush (delete_object brush ∷ []);
              made_lem = refl;
              follows_lem = painted-follows g.hwnd_textview g.hdc_textview brush rect painting;
              effects_lem = refl;
            })
      | inl away ↦ elim (Bool-cases (is_null new_dc)) [
        | inl failed ↦
            let same : (new_dc == g.hdc_textview) ≡ true = ground arith in
            rw (winui__textview_clear_eol, away, same)
              (record {
                made =
                    get_dc g.hwnd_textview new_dc
                    ∷ filled new_dc rect brush (delete_object brush ∷ []);
                made_lem = refl;
                follows_lem =
                    failed-follows g.hwnd_textview g.hdc_textview new_dc brush rect away failed;
                effects_lem = refl;
              })
        | inr got ↦
            let other : (new_dc == g.hdc_textview) ≡ false = ground arith in
            rw (winui__textview_clear_eol, away, other)
              (record {
                made =
                    get_dc g.hwnd_textview new_dc
                    ∷ filled new_dc rect brush
                        (release_dc g.hwnd_textview new_dc ∷ delete_object brush ∷ []);
                made_lem = refl;
                follows_lem = filled-follows g.hwnd_textview g.hdc_textview new_dc brush rect got;
                effects_lem = refl;
              })
      ]
    ]

pub minibuffer_clear_eol-Leaves :
    (new_dc brush : ℕ) (x y : ℤ) (g : Winui)
    → Leaves g.hwnd_minibuffer g.hdc_minibuffer
        (fill_rect (context g.hdc_minibuffer new_dc) (rest_of_row x y g) brush ∷ [])
        nothing
        g
        (winui__minibuffer_clear_eol new_dc brush x y g)
unfolding winui__minibuffer_clear_eol perform effects
minibuffer_clear_eol-Leaves new_dc brush x y g =
    let rect = rest_of_row x y g in
    elim (Bool-cases (is_null g.hdc_minibuffer)) [
      | inr painting ↦
          let same : (g.hdc_minibuffer == g.hdc_minibuffer) ≡ true = ground arith in
          rw (winui__minibuffer_clear_eol, painting, same)
            (record {
              made = filled g.hdc_minibuffer rect brush (delete_object brush ∷ []);
              made_lem = refl;
              follows_lem = painted-follows g.hwnd_minibuffer g.hdc_minibuffer brush rect painting;
              effects_lem = refl;
            })
      | inl away ↦ elim (Bool-cases (is_null new_dc)) [
        | inl failed ↦
            let same : (new_dc == g.hdc_minibuffer) ≡ true = ground arith in
            rw (winui__minibuffer_clear_eol, away, same)
              (record {
                made =
                    get_dc g.hwnd_minibuffer new_dc
                    ∷ filled new_dc rect brush (delete_object brush ∷ []);
                made_lem = refl;
                follows_lem =
                    failed-follows g.hwnd_minibuffer g.hdc_minibuffer new_dc brush rect away failed;
                effects_lem = refl;
              })
        | inr got ↦
            let other : (new_dc == g.hdc_minibuffer) ≡ false = ground arith in
            rw (winui__minibuffer_clear_eol, away, other)
              (record {
                made =
                    get_dc g.hwnd_minibuffer new_dc
                    ∷ filled new_dc rect brush
                        (release_dc g.hwnd_minibuffer new_dc ∷ delete_object brush ∷ []);
                made_lem = refl;
                follows_lem =
                    filled-follows g.hwnd_minibuffer g.hdc_minibuffer new_dc brush rect got;
                effects_lem = refl;
              })
      ]
    ]

-- ===== src/Winui/Start.antt =====
-- How far src/winui.c comes in registering its classes and in creating its windows.
use feline.Prelude.{
  ℕ, ◌≡◌, ◌≢◌, ◌⊎◌, inl, inr, refl, sym, ◌∙◌, ap, arith, true, false, Bool-cases, List, ◌∷◌,
  if◌then◌else◌, [], pos, half_ℤ, ◌-ℤ◌,
}
use feline.Winui.{Winui, perform, is_null}
use feline.Winui.Calls.{
  Window, frame, textview, minibuffer, modeline, Place, Rect, Call, create_window, register_class,
  print_error, unable_to_register, unable_to_create,
}
use feline.Winui.Setup.{
  Answers, frame_class, textview_place, modeline_place, minibuffer_place, register_minibuffer,
  register_textview, winui__initialize, create_minibuffer, create_modeline, create_textview,
  winui__create_frame,
}

-- The last thing done was to print an error about a window.
abbrev pub HasFailed : (Window → Call) → Winui → Type 0
HasFailed complaint g = (w : Window) × (cs : List Call) × (g.calls ≡ complaint w ∷ cs)

module _ (an : Answers) where
  open an use {create, registers, desktop_rect, client_rect}

  register_textview_cases :
      (g : Winui)
      → g.initialized ≡ false
      → let g' = register_textview an g in
        (g'.initialized ≡ true)
        ⊎ ((g'.initialized ≡ false) × HasFailed (λ w. print_error (unable_to_register w)) g')
  unfolding register_textview register_minibuffer perform
  register_textview_cases g fresh = elim (Bool-cases (registers textview g)) [
    | inl done ↦ rw done (inl refl)
    | inr failed ↦ rw failed (inr (fresh, (textview, _, refl)))
  ]

  initialize_again : (g : Winui) → g.initialized ≡ true → winui__initialize an g ≡ g
  unfolding winui__initialize
  initialize_again g e = ground arith

  initialize_first :
      (g : Winui)
      → g.initialized ≡ false
      → let g1 = perform (register_class frame_class ∷ []) g in
        winui__initialize an g ≡ (
          if registers frame g
          then register_textview an g1
          else perform (print_error (unable_to_register frame) ∷ []) g1)
  unfolding winui__initialize
  initialize_first g e = ground arith

  -- In a program that has not registered its classes: `winui__initialize` either marks them as registered, and
  -- then a second call changes nothing; or it has not, and the last thing it did was to print an error.
  pub winui__initialize_lem :
      (g : Winui)
      → g.initialized ≡ false
      → let g' = winui__initialize an g in
        ((g'.initialized ≡ true) × (winui__initialize an g' ≡ g'))
        ⊎ ((g'.initialized ≡ false) × HasFailed (λ w. print_error (unable_to_register w)) g')
  unfolding perform
  winui__initialize_lem g fresh =
      let g1 = perform (register_class frame_class ∷ []) g in
      let first = initialize_first g fresh in
      elim (Bool-cases (registers frame g)) [
        | inr failed ↦
            let e : winui__initialize an g
                ≡ perform (print_error (unable_to_register frame) ∷ []) g1 =
              rw failed at first in
            inr (
              ap (λ (h : Winui). h.initialized) e ∙ fresh,
              (frame, g1.calls, ap (λ (h : Winui). h.calls) e),
            )
        | inl done ↦
            let e : winui__initialize an g ≡ register_textview an g1 = rw done at first in
            elim (register_textview_cases g1 fresh) [
              | inl marked ↦
                  let all : (winui__initialize an g).initialized ≡ true =
                    ap (λ (h : Winui). h.initialized) e ∙ marked in
                  inl (all, initialize_again _ all)
              | inr (unmarked, (w, cs, last)) ↦ inr (
                ap (λ (h : Winui). h.initialized) e ∙ unmarked,
                (w, cs, ap (λ (h : Winui). h.calls) e ∙ last),
              )
            ]
      ]

  -- What Windows says of creating a window: it changes no variable that holds another window's handle.
  pub record CreateLaws : Type 0 where
    pub keeps_frame :
        (w : Window) (p : Place) (g : Winui) → (create w p g).1.hwnd_frame ≡ g.hwnd_frame
    pub keeps_textview :
        (w : Window) (p : Place) (g : Winui) → (create w p g).1.hwnd_textview ≡ g.hwnd_textview
    pub keeps_modeline :
        (w : Window) (p : Place) (g : Winui) → (create w p g).1.hwnd_modeline ≡ g.hwnd_modeline

  abbrev pub AllCreated : Winui → Type 0
  AllCreated g =
      (g.hwnd_frame ≢ 0) × (g.hwnd_textview ≢ 0) × (g.hwnd_modeline ≢ 0) × (g.hwnd_minibuffer ≢ 0)

  present : (h : ℕ) → is_null h ≡ false → h ≢ 0
  present h e zero_h = ground arith

  still : {a b : ℕ} → b ≡ a → a ≢ 0 → b ≢ 0
  still kept nonzero e = nonzero (sym kept ∙ e)

  create_minibuffer_cases :
      (laws : CreateLaws) (rect : Rect) (g : Winui)
      → g.hwnd_frame ≢ 0
      → g.hwnd_textview ≢ 0
      → g.hwnd_modeline ≢ 0
      → let g' = create_minibuffer an rect g in
        AllCreated g' ⊎ HasFailed (λ w. print_error (unable_to_create w)) g'
  unfolding create_minibuffer perform
  create_minibuffer_cases laws rect g a b c =
      let place = minibuffer_place rect g.char_height in
      let h = record g { calls = create_window minibuffer place ∷ g.calls } in
      let (hwnd, g1) = create minibuffer place h in
      let a1 = still (laws.keeps_frame minibuffer place h) a in
      let b1 = still (laws.keeps_textview minibuffer place h) b in
      let c1 = still (laws.keeps_modeline minibuffer place h) c in
      elim (Bool-cases (is_null hwnd)) [
        | inl failed ↦ rw failed (inr (minibuffer, _, refl))
        | inr made ↦ elim (Bool-cases (is_null g1.hwnd_modeline)) [
          | inl gone ↦ rw (made, gone) (inl (a1, b1, c1, present hwnd made))
          | inr there ↦ rw (made, there) (inl (a1, b1, c1, present hwnd made))
        ]
      ]

  create_modeline_cases :
      (laws : CreateLaws) (rect : Rect) (g : Winui)
      → g.hwnd_frame ≢ 0
      → g.hwnd_textview ≢ 0
      → let g' = create_modeline an rect g in
        AllCreated g' ⊎ HasFailed (λ w. print_error (unable_to_create w)) g'
  unfolding create_modeline perform
  create_modeline_cases laws rect g a b =
      let place = modeline_place rect g.char_height in
      let h = record g { calls = create_window modeline place ∷ g.calls } in
      let (hwnd, g1) = create modeline place h in
      elim (Bool-cases (is_null hwnd)) [
        | inl failed ↦ rw failed (inr (modeline, _, refl))
        | inr made ↦ rw made (
            create_minibuffer_cases laws rect (record g1 { hwnd_modeline = hwnd })
              (still (laws.keeps_frame modeline place h) a)
              (still (laws.keeps_textview modeline place h) b) (present hwnd made))
      ]

  create_textview_cases :
      (laws : CreateLaws) (rect : Rect) (g : Winui)
      → g.hwnd_frame ≢ 0
      → let g' = create_textview an rect g in
        AllCreated g' ⊎ HasFailed (λ w. print_error (unable_to_create w)) g'
  unfolding create_textview perform
  create_textview_cases laws rect g a =
      let place = textview_place rect g.char_height in
      let h = record g { calls = create_window textview place ∷ g.calls } in
      let (hwnd, g1) = create textview place h in
      elim (Bool-cases (is_null hwnd)) [
        | inl failed ↦ rw failed (inr (textview, _, refl))
        | inr made ↦ rw made (
            create_modeline_cases laws rect (record g1 { hwnd_textview = hwnd })
              (still (laws.keeps_frame textview place h) a) (present hwnd made))
      ]

  -- `winui__create_frame` leaves the handles of all four windows, or the last thing it did was to print which
  -- window could not be created.
  pub winui__create_frame_lem :
      (laws : CreateLaws) (g : Winui)
      → let g' = winui__create_frame an g in
        AllCreated g' ⊎ HasFailed (λ w. print_error (unable_to_create w)) g'
  unfolding winui__create_frame perform
  winui__create_frame_lem laws g =
      let desktop = desktop_rect g in
      let across = half_ℤ (desktop.right -ℤ desktop.left) in
      let place : Place = record { x = across; y = pos 0; width = across; height = pos 768 } in
      let h = record g { calls = create_window frame place ∷ g.calls } in
      let (hwnd, g1) = create frame place h in
      let g2 = record g1 { hwnd_frame = hwnd } in
      elim (Bool-cases (is_null hwnd)) [
        | inl failed ↦ rw failed (inr (frame, _, refl))
        | inr made ↦ rw made (create_textview_cases laws (client_rect g2) g2 (present hwnd made))
      ]

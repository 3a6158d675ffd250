-- ===== src/Winui/Loop.antt =====
-- The message loops of src/winui.c, over the messages that arrive.
use feline.Prelude.{ℕ, false, if◌then◌else◌, Option, none, some, List, [], ◌∷◌}
use feline.Winui.{Winui, perform}
use feline.Winui.Calls.{Message, set_focus, sleep_1}

-- A posted message.
pub record Posted : Type 0 where
  pub hwnd : ℕ
  pub msg : Message
  pub wparam : ℕ
  pub lparam : ℕ

-- What GetMessage returns: WM_QUIT (0), a failure (-1), or a message.
pub data Incoming : Type 0 where
  quit failed : Incoming
  message : Posted → Incoming

-- `dispatch` is TranslateMessage and DispatchMessage, which call the window procedures and so the Feline
-- code; `safepoint` is the Feline code's.
module _ (dispatch : Posted → Winui → Winui) where
  -- The `while` loop over the messages to come. The result is the state at its end, with the messages that
  -- are still to come; `none` means that the loop waits for a message.
  unfoldable pub minibuffer_loop : List Incoming → Winui → Option (List Incoming × Winui)
  minibuffer_loop [] g = none
  minibuffer_loop (quit ∷ rest) g = some (rest, g)
  minibuffer_loop (failed ∷ rest) g = some (rest, g)
  minibuffer_loop (message m ∷ rest) g =
      let later = minibuffer_loop rest (dispatch m g) in
      if g.minibuffer_exit then some (rest, g) else later

  unfoldable pub winui__minibuffer_main : List Incoming → Winui → Option (List Incoming × Winui)
  unfolding perform
  winui__minibuffer_main incoming g =
      let g1 = perform (set_focus g.hwnd_minibuffer ∷ []) (record g { minibuffer_exit = false }) in
      elim (minibuffer_loop incoming g1) [
        | none ↦ none
        | some (rest, g2) ↦ some (rest, perform (set_focus g2.hwnd_textview ∷ []) g2)
      ]

  unfoldable pub dispatch_all : List Posted → Winui → Winui
  dispatch_all [] g = g
  dispatch_all (m ∷ ms) g = dispatch_all ms (dispatch m g)

  module _ (safepoint : Winui → Winui) where
    -- The rounds of the endless loop, each with the messages that PeekMessage finds in it.
    unfoldable pub winui__main : List (List Posted) → Winui → Winui
    unfolding perform dispatch_all
    winui__main [] g = g
    winui__main (ms ∷ rounds) g =
        winui__main rounds (perform (sleep_1 ∷ []) (dispatch_all ms (safepoint g)))

-- ===== src/Winui/Lost.antt =====
-- How the loop of the minibuffer ends.
use feline.Prelude.{◌≡◌, refl, ◌∙◌, ap, true, false, none, some, List, [], ◌∷◌, ◌++◌, if◌then◌else◌}
use feline.Winui.{Winui, perform}
use feline.Winui.Calls.{set_focus}
use feline.Winui.Loop.{
  Posted, Incoming, quit, failed, message, minibuffer_loop, winui__minibuffer_main, dispatch_all,
}

abbrev pub messages : List Posted → List Incoming
messages [] = []
messages (m ∷ ms) = message m ∷ messages ms

module _ (dispatch : Posted → Winui → Winui) where
  -- Dispatching the messages asks for the end of the loop, and only the last one does.
  abbrev pub IsLeaving : List Posted → Winui → Type 0
  IsLeaving [] g = g.minibuffer_exit ≡ true
  IsLeaving (m ∷ ms) g = (g.minibuffer_exit ≡ false) × IsLeaving ms (dispatch m g)

  -- The state in which `winui__minibuffer_main` enters its loop.
  abbrev pub entered : Winui → Winui
  entered g = record g { minibuffer_exit = false; calls = set_focus g.hwnd_minibuffer ∷ g.calls }

  loop-waits :
      (ms : List Posted) (g : Winui)
      → IsLeaving ms g
      → minibuffer_loop dispatch (messages ms) g ≡ none
  unfolding minibuffer_loop
  loop-waits [] g leaving = refl
  loop-waits (m ∷ ms) g leaving =
      ap
        (λ b.
          if b
          then some (messages ms, g)
          else minibuffer_loop dispatch (messages ms) (dispatch m g))
        leaving.0
      ∙ loop-waits ms (dispatch m g) leaving.1

  loop-drops :
      (ms : List Posted) (x : Incoming) (rest : List Incoming) (g : Winui)
      → IsLeaving ms g
      → minibuffer_loop dispatch (messages ms ++ (x ∷ rest)) g
        ≡ some (rest, dispatch_all dispatch ms g)
  unfolding minibuffer_loop dispatch_all
  loop-drops [] quit rest g leaving = refl
  loop-drops [] failed rest g leaving = refl
  loop-drops [] (message m) rest g leaving =
      ap (λ b. if b then some (rest, g) else minibuffer_loop dispatch rest (dispatch m g)) leaving
  loop-drops (m ∷ ms) x rest g leaving =
      ap
        (λ b.
          if b
          then some (messages ms ++ (x ∷ rest), g)
          else minibuffer_loop dispatch (messages ms ++ (x ∷ rest)) (dispatch m g))
        leaving.0
      ∙ loop-drops ms x rest (dispatch m g) leaving.1

  -- Where the last of the messages, and none before it, asks for the end: with these messages alone the loop
  -- waits for another one; with whatever comes next it returns, in the state after the messages asked for and
  -- the focus given back, and what came next has been taken off and is dispatched to nobody.
  pub winui__minibuffer_main-drops :
      (ms : List Posted) (x : Incoming) (rest : List Incoming) (g : Winui)
      → IsLeaving ms (entered g)
      → let last = dispatch_all dispatch ms (entered g) in
        (winui__minibuffer_main dispatch (messages ms) g ≡ none)
        × (winui__minibuffer_main dispatch (messages ms ++ (x ∷ rest)) g
            ≡ some (rest, record last { calls = set_focus last.hwnd_textview ∷ last.calls }))
  unfolding winui__minibuffer_main perform
  winui__minibuffer_main-drops ms x rest g leaving = (
    rw (loop-waits ms (entered g) leaving, winui__minibuffer_main) refl,
    rw (loop-drops ms x rest (entered g) leaving, winui__minibuffer_main) refl,
  )

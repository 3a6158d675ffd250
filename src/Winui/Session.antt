-- ===== src/Winui/Session.antt =====
-- A session of src/winui.c: the messages that Windows delivers to the procedures of the three windows, one after the
-- other.
pub mod Kept
pub mod Sized
pub mod Settled
use feline.Prelude.{ℕ, Option, none, some, List, [], ◌∷◌}
use feline.Winui.{Winui}
use feline.Winui.Calls.{Message, wm_create, wm_size}
use feline.Winui.Setup.{Answers}
use feline.Winui.Messages.{
  Events, Returned, winui__frame_wnd_proc, winui__textview_wnd_proc, winui__minibuffer_wnd_proc,
}

-- The windows whose classes name a procedure of the file.
pub data Target : Type 0 where
  to_frame to_textview to_minibuffer : Target

pub record Delivered : Type 0 where
  pub target : Target
  pub hwnd : ℕ
  pub msg : Message
  pub wparam : ℕ
  pub lparam : ℕ

-- The size that WM_SIZE last told the text view since the font was made, if it has.
abbrev pub size_after_message : Target → Message → ℕ → Option ℕ → Option ℕ
size_after_message to_frame wm_create lparam size = none
size_after_message to_textview wm_size lparam size = some lparam
size_after_message _ _ lparam size = size

abbrev pub size_after : Delivered → Option ℕ → Option ℕ
size_after d size = size_after_message d.target d.msg d.lparam size

-- `feline` is what the Feline code does in answer to what a procedure has sent it.
module _ (an : Answers) (ev : Events) (feline : Delivered → Winui → Winui) where
  unfoldable pub procedure : Target → ℕ → Message → ℕ → ℕ → Winui → Option (Returned × Winui)
  procedure to_frame = winui__frame_wnd_proc an ev
  procedure to_textview = winui__textview_wnd_proc an ev
  procedure to_minibuffer = winui__minibuffer_wnd_proc an ev

  -- `none` is the fault of a division.
  unfoldable pub session : List Delivered → Winui → Option Winui
  session [] g = some g
  session (d ∷ ds) g = elim (procedure d.target d.hwnd d.msg d.wparam d.lparam g) [
    | none ↦ none
    | some (ret, g1) ↦ session ds (feline d g1)
  ]

  -- The size that is known at the end.
  unfoldable pub last_size : List Delivered → Option ℕ → Option ℕ
  last_size [] size = size
  last_size (d ∷ ds) size = last_size ds (size_after d size)

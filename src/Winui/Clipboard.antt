-- ===== src/Winui/Clipboard.antt =====
-- The clipboard in src/winui.c.
use feline.Prelude.{ℕ, ◌+◌, Bool, false, if◌then◌else◌, Option, none, some, List, [], ◌∷◌, length}
use feline.Winui.{Winui, perform, is_null}
use feline.Winui.Calls.{
  open_clipboard, close_clipboard, empty_clipboard, set_clipboard_data, global_alloc, global_lock,
  global_unlock,
}

-- What Windows answers: whether there is text, whether the clipboard opens, the handle of the text in it, the text at
-- the pointer that GlobalLock returns for a handle, whether `malloc` finds memory, the handle that GlobalAlloc
-- returns, and whether SetClipboardData takes the text.
pub record Clipboard : Type 0 where
  pub has_text : Winui → Bool
  pub opens : Winui → Bool
  pub clipboard_data : Winui → ℕ
  pub locked_text : ℕ → Winui → Option (List ℕ)
  pub mallocs : ℕ → Winui → Bool
  pub allocated : ℕ → Winui → ℕ
  pub takes : List ℕ → Winui → Bool

module _ (cb : Clipboard) where
  open cb use {has_text, opens, clipboard_data, locked_text, mallocs, allocated, takes}

  -- The text is copied and the clipboard closed; `none`: GlobalLock or `malloc` has returned NULL, which `strlen` reads
  -- or `strcpy` writes.
  unfoldable pub copy_text : ℕ → Winui → Option (Option (List ℕ) × Winui)
  unfolding perform
  copy_text h g =
      let g1 = perform (global_lock h ∷ []) g in
      elim (locked_text h g) [
        | none ↦ none
        | some s ↦
            if mallocs (length s + 1) g1
            then some (some s, perform (close_clipboard ∷ []) g1)
            else none
      ]

  -- The copy of the text, or NULL; the outer `none` is the fault in copying it.
  unfoldable pub winui__get_clipboard_text : Winui → Option (Option (List ℕ) × Winui)
  unfolding perform
  winui__get_clipboard_text g =
      let g1 = perform (open_clipboard ∷ []) g in
      let h = clipboard_data g1 in
      let copied = copy_text h g1 in
      if has_text g
      then if opens g
        then if is_null h then some (none, perform (close_clipboard ∷ []) g1) else copied
        else some (none, g)
      else some (none, g)

  -- `none`: GlobalLock has returned NULL, which `strcpy` writes.
  unfoldable pub put_text : ℕ → List ℕ → Winui → Option (Bool × Winui)
  unfolding perform
  put_text h s g =
      let g1 = perform (global_lock h ∷ []) g in
      elim (locked_text h g) [
        | none ↦ none
        | some blank ↦
            some
              (takes s g1, perform (set_clipboard_data ∷ global_unlock h ∷ close_clipboard ∷ []) g1)
      ]

  unfoldable pub winui__set_clipboard_text : List ℕ → Winui → Option (Bool × Winui)
  unfolding perform
  winui__set_clipboard_text s g =
      let n = length s + 1 in
      let g1 = perform (open_clipboard ∷ empty_clipboard ∷ []) g in
      let h = allocated n g1 in
      let g2 = perform (global_alloc n ∷ []) g1 in
      let put = put_text h s g2 in
      if opens g
      then if is_null h then some (false, perform (close_clipboard ∷ []) g2) else put
      else some (false, g)

-- ===== src/Winui/Handles/Board.antt =====
-- The clipboard in src/winui.c: closed on every branch that returns.
use feline.Prelude.{ℕ, ◌+◌, ◌≡◌, ◌⊎◌, Bool, true, false, Option, none, some, List, [], ◌∷◌, length}
use feline.Winui.{Winui, perform, is_null}
use feline.Winui.Calls.{
  open_clipboard, empty_clipboard, set_clipboard_data, global_alloc, global_lock,
}
use feline.Winui.Clipboard.{Clipboard}
use feline.Winui.Handles.{Holdings, nothing, Leaves}

-- A handle of memory that is locked.
abbrev pub locked : ℕ → Holdings
locked h = record nothing { lock = h }

module _ (cb : Clipboard) where
  open cb use {has_text, opens, clipboard_data, locked_text, mallocs, allocated, takes}

  -- The state in which the text is locked for reading, and for writing.
  abbrev pub opened : Winui → Winui
  opened g = perform (open_clipboard ∷ []) g

  abbrev pub emptied : ℕ → Winui → Winui
  emptied n g = perform (open_clipboard ∷ empty_clipboard ∷ global_alloc n ∷ []) g

  -- How reading ends. It faults where GlobalLock or `malloc` returns NULL for a text that is there. A text that is returned
  -- is the one at the handle in the clipboard, which stays locked; else there is none to be had.
  abbrev pub IsRead : Winui → Option (Option (List ℕ) × Winui) → Type 0
  IsRead g none =
      let h = clipboard_data (opened g) in
      (is_null h ≡ false)
      × ((locked_text h (opened g) ≡ none)
          ⊎ ((s : List ℕ) × (locked_text h (opened g) ≡ some s)
              × (mallocs (length s + 1) (perform (global_lock h ∷ []) (opened g)) ≡ false)))
  IsRead g (some (none, g')) =
      ((has_text g ≡ false) ⊎ ((opens g ≡ false) ⊎ (is_null (clipboard_data (opened g)) ≡ true)))
      × Leaves 0 0 [] nothing g g'
  IsRead g (some (some s, g')) =
      let h = clipboard_data (opened g) in
      (locked_text h (opened g) ≡ some s) × Leaves 0 0 [] (locked h) g g'

  -- The handle of the memory that is allocated for a text.
  abbrev pub memory_for : List ℕ → Winui → ℕ
  memory_for s g = allocated (length s + 1) (perform (open_clipboard ∷ empty_clipboard ∷ []) g)

  -- How writing ends. It faults where GlobalLock returns NULL for the memory that is allocated; else the result is
  -- FALSE where the clipboard does not open or there is no memory, and elsewhere whether the text is taken.
  abbrev pub IsWritten : List ℕ → Winui → Option (Bool × Winui) → Type 0
  IsWritten s g none =
      let h = memory_for s g in
      (opens g ≡ true) × (is_null h ≡ false) × (locked_text h (emptied (length s + 1) g) ≡ none)
  IsWritten s g (some (done, g')) =
      let h = memory_for s g in
      ((done ≡ false) × ((opens g ≡ false) ⊎ (is_null h ≡ true)) × Leaves 0 0 [] nothing g g')
      ⊎ ((opens g ≡ true)
          × (is_null h ≡ false)
          × (done ≡ takes s (perform (global_lock h ∷ []) (emptied (length s + 1) g)))
          × Leaves 0 0 (set_clipboard_data ∷ []) nothing g g')

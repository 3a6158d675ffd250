-- ===== src/Winui/Handles.antt =====
-- The device contexts, brushes, carets, memory and the clipboard that src/winui.c takes, uses and gives back.
pub mod Fill
pub mod Text
pub mod Board
use feline.Prelude.{
  ℕ, ◌≡◌, refl, ◌==◌, Bool, true, false, not, ◌&&◌, ◌||◌, if◌then◌else◌, Option, none, some, List,
  [], ◌∷◌,
}
use feline.Winui.{Winui, perform, is_null}
use feline.Winui.Calls.{
  Call, get_dc, release_dc, select_object, set_text_color, set_bk_color, hide_caret, show_caret,
  text_out, create_solid_brush, fill_rect, delete_object, open_clipboard, close_clipboard,
  empty_clipboard, set_clipboard_data, global_lock, global_unlock,
}

-- What is held between two calls: a device context, a brush and a locked handle of memory, 0 where there is none,
-- whether the caret is hidden and whether the clipboard is open.
pub record Holdings : Type 0 where
  pub dc : ℕ
  pub brush : ℕ
  pub lock : ℕ
  pub caret_hidden : Bool
  pub clipboard_open : Bool

abbrev pub nothing : Holdings
nothing = record { dc = 0; brush = 0; lock = 0; caret_hidden = false; clipboard_open = false }

abbrev pub only_if : Bool → Holdings → Option Holdings
only_if b s = if b then some s else none

-- A call that draws is on the context that is held; without one, on the context that the window is painted with, `cr`,
-- which is 0 where it is not painted.
abbrev pub draws_on : ℕ → ℕ → Holdings → Bool
draws_on cr h s = if is_null s.dc then h == cr else h == s.dc

-- The rules of the calls for one window, `w`: none where a call breaks them. A context is got and released for that
-- window, one at a time; drawing is on it; text is written with the caret hidden, or while painting; a rectangle is filled with
-- the brush that is held, and that one is deleted; the clipboard is opened once before it is used, and what is put there is locked.
unfoldable pub obeys : ℕ → ℕ → Call → Holdings → Option Holdings
obeys w cr (get_dc v h) s = only_if (v == w && is_null s.dc) (record s { dc = h })
obeys w cr (release_dc v h) s = only_if (v == w && h == s.dc) (record s { dc = 0 })
obeys w cr (select_object h o) s = only_if (draws_on cr h s) s
obeys w cr (set_text_color h c) s = only_if (draws_on cr h s) s
obeys w cr (set_bk_color h c) s = only_if (draws_on cr h s) s
obeys w cr (text_out h x y t) s =
    only_if (draws_on cr h s && (s.caret_hidden || not (is_null cr))) s
obeys w cr (fill_rect h r b) s = only_if (draws_on cr h s && b == s.brush) s
obeys w cr (create_solid_brush b) s = only_if (is_null s.brush) (record s { brush = b })
obeys w cr (delete_object b) s = only_if (b == s.brush) (record s { brush = 0 })
obeys w cr (hide_caret v) s =
    only_if (v == w && not s.caret_hidden) (record s { caret_hidden = true })
obeys w cr (show_caret v) s = only_if (v == w && s.caret_hidden) (record s { caret_hidden = false })
obeys w cr open_clipboard s = only_if (not s.clipboard_open) (record s { clipboard_open = true })
obeys w cr close_clipboard s = only_if s.clipboard_open (record s { clipboard_open = false })
obeys w cr empty_clipboard s = only_if s.clipboard_open s
obeys w cr set_clipboard_data s = only_if (s.clipboard_open && not (is_null s.lock)) s
obeys w cr (global_lock h) s = only_if (is_null s.lock) (record s { lock = h })
obeys w cr (global_unlock h) s = only_if (h == s.lock) (record s { lock = 0 })
obeys w cr c s = some s

-- What is held after calls that begin with some things held.
unfoldable pub follows : ℕ → ℕ → List Call → Holdings → Option Holdings
follows w cr [] s = some s
follows w cr (c ∷ cs) s = elim (obeys w cr c s) [ none ↦ none | some s' ↦ follows w cr cs s' ]

-- The calls that show something in a window or put something on the clipboard.
abbrev pub is_effect : Call → Bool
is_effect (text_out h x y t) = true
is_effect (fill_rect h r b) = true
is_effect set_clipboard_data = true
is_effect _ = false

unfoldable pub effects : List Call → List Call
effects [] = []
effects (c ∷ cs) = let rest = effects cs in if is_effect c then c ∷ rest else rest

-- The calls made between two states, in their order, begin with nothing held, keep the rules, have the effects
-- `shown` and no others, and leave something held.
pub record Leaves (w cr : ℕ) (shown : List Call) (left : Holdings) (g g' : Winui) : Type 0 where
  pub made : List Call
  pub made_lem : g'.calls ≡ (perform made g).calls
  pub follows_lem : follows w cr made nothing ≡ some left
  pub effects_lem : effects made ≡ shown

pub performed-Leaves :
    (w cr : ℕ) (left : Holdings) (g : Winui) (made : List Call)
    → follows w cr made nothing ≡ some left
    → Leaves w cr (effects made) left g (perform made g)
performed-Leaves w cr left g made e = record {
  made = made;
  made_lem = refl;
  follows_lem = e;
  effects_lem = refl;
}

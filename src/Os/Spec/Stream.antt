-- ===== src/Os/Spec/Stream.antt =====
-- What reading a file to its end promises on both systems.
use feline.Prelude.{ℕ, ◌<◌, ◌≡◌, sym, subst, ◌∙◌, ap, List, length, some, ℤ}
use feline.Streams.{read_to_end}
use feline.Os.Files.{Posix, Machine, os_read_char}
use feline.Os.Files.Stream.{characters, ReadLaws, read_to_end-os_read_char}
use feline.Os.Windows.{Win32, Machine as WindowsMachine, os_read_char as windows_read_char}
use feline.Os.Windows.Stream.{ReadLaws as WindowsLaws, read_to_end-os_read_char_windows}

-- On Linux and on Windows, for files with the same bytes to come, whatever they are: with one more call than there are
-- bytes, reading to the end returns on both systems, with the same characters, which are all the bytes in order.
pub linux_characters-windows_characters :
    (px : Posix) (w32 : Win32) (fd handle : ℤ) (laws : ReadLaws px fd)
    (windows_laws : WindowsLaws w32 handle) (fuel : ℕ) (bytes : List ℕ) (m : Machine px)
    (w : WindowsMachine w32)
    → laws.content m.system ≡ bytes
    → windows_laws.content w.system ≡ bytes
    → length bytes < fuel
    → ((m' : Machine px) × (read_to_end (os_read_char px fd) fuel m ≡ some (characters bytes, m')))
      × ((w' : WindowsMachine w32) × (read_to_end (windows_read_char w32 handle) fuel w
            ≡ some (characters bytes, w')))
linux_characters-windows_characters px w32 fd handle laws windows_laws fuel bytes m w same same'
      enough =
    let (m', e) =
      read_to_end-os_read_char px fd laws fuel m (subst (λ s. length s < fuel) (sym same) enough) in
    let (w', e') =
      read_to_end-os_read_char_windows w32 handle windows_laws fuel w
        (subst (λ s. length s < fuel) (sym same') enough) in
    (
      (m', e ∙ ap (λ s. some (characters s, m')) same),
      (w', e' ∙ ap (λ s. some (characters s, w')) same'),
    )

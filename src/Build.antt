-- ===== src/Build.antt =====
-- The programs of the build: src/version.c, which names the version, and src/feline_home.c, which writes down where the
-- sources are.
use feline.Prelude.{ℕ, Bool, if◌then◌else◌, Option, none, some, List, [], ◌∷◌, ◌++◌, codes}

-- REPOSITORY_VERSION if the build defines it, else RELEASE_VERSION.
unfoldable pub version : Option (List ℕ) → List ℕ → List ℕ
version none release_version = release_version
version (some repository_version) release_version = repository_version

-- BUILD if the build defines it.
unfoldable pub build : Option (List ℕ) → List ℕ
build none = []
build (some text) = text

-- The calls of src/feline_home.c. `fopen` is for writing, and returns NULL (`none`) where it fails.
pub record Library : Type 1 where
  pub System : Type 0
  pub chdir : List ℕ → System → System
  pub getcwd : ℕ → System → Option (List ℕ)
  pub fopen : List ℕ → System → Option ℕ × System
  pub fprintf : ℕ → List ℕ → System → System
  pub fclose : ℕ → System → System

-- `%%define FELINE_HOME "%s"`, and the same with the directory of the sources. A quotation mark is byte 34.
abbrev pub home_line : List ℕ → List ℕ
home_line buf = codes "%define FELINE_HOME " ++ (34 ∷ (buf ++ (34 ∷ 10 ∷ [])))

abbrev pub source_line : ℕ → List ℕ → List ℕ
source_line sep buf =
    codes "%define FELINE_SOURCE_DIR " ++ (34 ∷ (buf ++ (sep ∷ (codes "src" ++ (34 ∷ 10 ∷ [])))))

abbrev pub separator : Bool → ℕ
separator windows = if windows then 92 else b'/'

module _ (lib : Library) where
  open lib use {System, chdir, getcwd, fopen, fprintf, fclose}

  -- `garbage` is what the array `buf` holds where `getcwd` fails, which is not tested.
  unfoldable pub main : Bool → List ℕ → System → System
  main windows garbage s0 =
      let s1 = chdir (codes "..") s0 in
      let buf : List ℕ = elim (getcwd 1024 s1) [ none ↦ garbage | some path ↦ path ] in
      let (file, s2) = fopen (codes "src/feline_home.asm") s1 in
      elim file [
        | none ↦ s2
        | some f ↦
            fclose f
              (fprintf f (source_line (separator windows) buf) (fprintf f (home_line buf) s2))
      ]

-- ===== src/Tests/Build.antt =====
-- src/feline_home.c where all that is written goes to one file.
use feline.Prelude.{ℕ, ◌≡◌, refl, false, some, List, [], ◌++◌, codes}
use feline.Build.{Library, main}

abbrev library : Library
library = record {
  System = List ℕ;
  chdir = λ path s. s;
  getcwd = λ size s. some (codes "/feline");
  fopen = λ path s. (some 3, []);
  fprintf = λ f text s. s ++ text;
  fclose = λ f s. s;
}

home_run :
    main library false [] []
    ≡ codes "%define FELINE_HOME \"/feline\"\n%define FELINE_SOURCE_DIR \"/feline/src\"\n"
unfolding main
home_run = refl

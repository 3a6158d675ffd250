-- ===== src/Os/Spec.antt =====
-- What the position and the size of an open file are, whatever the system: the file as two numbers, the questions
-- about it as operations, and what it takes for the bodies of a system to implement them.
pub mod Linux
pub mod Win
pub mod Stream
use feline.Prelude.{ℕ, ◌≡◌, refl, ◌∙◌, sym, ap, ap₂, List, [], ◌∷◌, ℤ, pos}

pub record File : Type 0 where
  pub position : ℕ
  pub size : ℕ

pub data FileOp : Type 0 where
  ask_size ask_position : FileOp
  reposition : ℕ → FileOp

unfoldable pub answer : FileOp → File → ℤ × File
answer ask_size f = (pos f.size, f)
answer ask_position f = (pos f.position, f)
answer (reposition k) f = (pos k, record f { position = k })

-- The answers to a sequence of operations, and the file after them.
unfoldable pub answers : List FileOp → File → List ℤ × File
answers [] f = ([], f)
answers (op ∷ ops) f =
    let (ret, f') = answer op f in let (rets, last) = answers ops f' in (ret ∷ rets, last)

-- An answer and the file after it, part by part.
pub answer_path :
    {a b : ℤ} {p q k n : ℕ}
    → a ≡ b
    → p ≡ q
    → k ≡ n
    → ◌≡◌ {A = ℤ × File}
        (a, record { position = p; size = k })
        (b, record { position = q; size = n })
answer_path x y z = rw (x, y, z) refl

-- The bodies of `os_file_size`, `os_file_position` and `os_reposition_file` at one file.
pub record Bodies (M : Type 0) : Type 0 where
  pub file_size : M → ℤ × M
  pub file_position : M → ℤ × M
  pub reposition_file : ℤ → M → ℤ × M

module _ {M : Type 0} (b : Bodies M) where
  unfoldable pub call : FileOp → M → ℤ × M
  call ask_size m = b.file_size m
  call ask_position m = b.file_position m
  call (reposition k) m = b.reposition_file (pos k) m

  unfoldable pub calls : List FileOp → M → List ℤ × M
  calls [] m = ([], m)
  calls (op ∷ ops) m =
      let (ret, m') = call op m in let (rets, last) = calls ops m' in (ret ∷ rets, last)

  -- The bodies implement the operations that are allowed, on the machines that are in order.
  pub record Implements : Type 1 where
    pub view : M → File
    pub IsAllowed : FileOp → Type 0
    pub InOrder : M → Type 0
    pub refines :
        (op : FileOp) (m : M)
        → IsAllowed op
        → InOrder m
        → let (ret, m') = call op m in ((ret, view m') ≡ answer op (view m)) × InOrder m'

  abbrev pub AllAllowed : Implements → List FileOp → Type 0
  AllAllowed im [] = Unit {0}
  AllAllowed im (op ∷ ops) = im.IsAllowed op × AllAllowed im ops

  pub calls-refine :
      (im : Implements) (ops : List FileOp) (m : M)
      → AllAllowed im ops
      → im.InOrder m
      → let (rets, last) = calls ops m in (rets, im.view last) ≡ answers ops (im.view m)
  unfolding calls answers
  calls-refine im [] m allowed order = refl
  calls-refine im (op ∷ ops) m allowed order =
      let (one, order') = im.refines op m allowed.0 order in
      let rest = calls-refine im ops (call op m).1 allowed.1 order' in
      ap (λ (q : List ℤ × File). ((call op m).0 ∷ q.0, q.1)) rest
      ∙ ap (λ (q : ℤ × File). (q.0 ∷ (answers ops q.1).0, (answers ops q.1).1)) one

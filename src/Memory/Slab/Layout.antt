-- ===== src/Memory/Slab/Layout.antt =====
-- The layout of a slab's page in kernel/memory/memory.cpp, for the ten sizes of the allocator.
use ice.Prelude.{ℕ, ◌+◌, ◌*◌, ◌%◌, ◌≤◌, ◌<◌, ◌≡◌, ◌⊎◌, inl, inr, List, [], ◌∷◌, sym, arith}
use mathlib.Core.Path.{subst}
use ice.Utils.Math.{align_up}
use ice.Memory.Slab.{sizes, first_offset, last_object, header_size}

abbrev pub OneOf : List ℕ → ℕ → Type 0
OneOf [] n = ⊥
OneOf (x ∷ xs) n = (n ≡ x) ⊎ OneOf xs n

abbrev All : (ℕ → Type 0) → List ℕ → Type 0
All P [] = Unit
All P (x ∷ xs) = P x × All P xs

All-OneOf : (P : ℕ → Type 0) (xs : List ℕ) (n : ℕ) → All P xs → OneOf xs n → P n
All-OneOf P [] n a o = absurd o
All-OneOf P (x ∷ xs) n a (inl e) = subst P (sym e) a.0
All-OneOf P (x ∷ xs) n a (inr o) = All-OneOf P xs n a.1 o

-- The objects 0 to `last_object` follow the header, at multiples of 8 bytes, inside the page, and
-- there is no room for one more.
pub record FillsPage (size : ℕ) : Type 0 where
  pub after_header : header_size ≤ first_offset size
  pub words : (first_offset size % 8 ≡ 0) × (size % 8 ≡ 0)
  pub inside : first_offset size + (last_object size + 1) * size ≤ 0x1000
  pub full : 0x1000 < first_offset size + (last_object size + 2) * size

-- For each of the allocator's ten object sizes, among them sizes that are no power of two, for
-- which `align_up` does not round up to a multiple, the objects that `init` links lie behind the
-- header and inside the page, on word boundaries, and as many as fit.
pub sizes-FillsPage : (size : ℕ) → OneOf sizes size → FillsPage size
sizes-FillsPage size = All-OneOf FillsPage sizes size table
  where
    table : All FillsPage sizes
    table = unfold first_offset last_object align_up in omega arith

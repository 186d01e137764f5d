-- ===== src/Memory/Slab/FreeList/Chain.antt =====
-- Chains of objects in memory: each object's first word is the address of the next, 0 at the end.
use ice.Prelude.{
  ℕ, ◌+◌, ◌≤◌, ◌<◌, ◌^◌, ◌≡◌, ◌≢◌, ◌⊎◌, List, [], ◌∷◌, sym, arith, Mem, load64, load_bytes_ext,
}
use mathlib.Core.Path.{subst}
use ice.Libc.String.{memset}
use ice.Libc.String.Block.{memset-IsWritten}

abbrev pub Disjoint : ℕ → ℕ → ℕ → ℕ → Type 0
Disjoint a n b k = (a + n ≤ b) ⊎ (b + k ≤ a)

-- The block of `n` bytes at `a` lies apart from objects of `size` bytes at `xs`.
abbrev pub Away : ℕ → ℕ → ℕ → List ℕ → Type 0
Away a n size [] = Unit
Away a n size (x ∷ xs) = Disjoint a n x size × Away a n size xs

-- From `p` the links lead through the objects `xs`, which lie apart, and end.
abbrev pub IsChain : ℕ → Mem → ℕ → List ℕ → Type 0
IsChain size m p [] = p ≡ 0
IsChain size m p (x ∷ xs) =
    (p ≡ x) × (x ≢ 0) × (x < 2 ^ 64) × Away x size size xs × IsChain size m (load64 m x) xs

pub IsChain-bound : (size : ℕ) (m : Mem) (p : ℕ) (xs : List ℕ) → IsChain size m p xs → p < 2 ^ 64
IsChain-bound size m p [] c = omega arith
IsChain-bound size m p (x ∷ xs) c = omega arith

-- A change that spares the objects' first words keeps the chain.
pub IsChain-frame :
    (size : ℕ) (m m' : Mem) (a n p : ℕ) (xs : List ℕ)
    → 8 ≤ size
    → Away a n size xs
    → ((b : ℕ) → Disjoint a n b 8 → load64 m' b ≡ load64 m b)
    → IsChain size m p xs
    → IsChain size m' p xs
IsChain-frame size m m' a n p [] e w same c = c
IsChain-frame size m m' a n p (x ∷ xs) e w same c =
    let word : load64 m' x ≡ load64 m x = same x (omega arith) in
    (
      c.0,
      c.1,
      c.2,
      c.3,
      subst (λ t. IsChain size m' t xs) (sym word)
          (IsChain-frame size m m' a n (load64 m x) xs e w.1 same c.4),
    )

-- `memset` spares the words outside its block.
pub load64-memset :
    (m : Mem) (a ch n b : ℕ) → Disjoint a n b 8 → load64 (memset m a ch n) b ≡ load64 m b
load64-memset m a ch n b d =
    load_bytes_ext 8 (memset m a ch n) m b
      (λ c l h. (memset-IsWritten m a ch n).outside c (omega arith))

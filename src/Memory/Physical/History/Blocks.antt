-- ===== src/Memory/Physical/History/Blocks.antt =====
-- The blocks that the page allocator of kernel/memory/physical.cpp has handed out.
use ice.Prelude.{
  ℕ, ◌+◌, ◌*◌, ◌/◌, ◌≤◌, ◌≡◌, inl, inr, refl, arith, Bool, true, false, ◌&&◌, ◌||◌, ltb, leb, List,
  [], ◌∷◌, ◌++◌, Bool-cases,
}
use ice.Memory.Physical.{Pmm, is_used, page_size}
use ice.Memory.Physical.Alloc.{limit}

-- A pointer from `alloc`, and the count that it was asked for.
pub record Block : Type 0 where
  pub ptr : ℕ
  pub count : ℕ

abbrev pub page : Block → ℕ
page b = b.ptr / page_size

-- The block has the page.
abbrev pub holds : Block → ℕ → Bool
holds b j = leb (page b) j && ltb j (page b + b.count)

abbrev pub covers : List Block → ℕ → Bool
covers [] j = false
covers (b ∷ bs) j = holds b j || covers bs j

abbrev pub pages : List Block → ℕ
pages [] = 0
pages (b ∷ bs) = b.count + pages bs

-- The block is a run of whole pages past page 0 that `s` has free, and shares none with `bs`.
pub record Fits (s : Pmm) (b : Block) (bs : List Block) : Type 0 where
  pub aligned : b.ptr ≡ page b * page_size
  pub positive : 1 ≤ page b
  pub within : page b + b.count ≤ limit s
  pub was_free : (j : ℕ) → holds b j ≡ true → is_used s j ≡ false
  pub alone : (j : ℕ) → holds b j ≡ true → covers bs j ≡ false

abbrev pub Separate : Pmm → List Block → Type 0
Separate s [] = Unit
Separate s (b ∷ bs) = Fits s b bs × Separate s bs

pub covers-removed :
    (before : List Block) (b : Block) (after : List Block) (j : ℕ)
    → covers (before ++ (b ∷ after)) j ≡ (holds b j || covers (before ++ after) j)
covers-removed [] b after j = refl
covers-removed (x ∷ before) b after j = ground (arith, covers-removed before b after j)

pub pages-removed :
    (before : List Block) (b : Block) (after : List Block)
    → pages (before ++ (b ∷ after)) ≡ b.count + pages (before ++ after)
pages-removed [] b after = refl
pages-removed (x ∷ before) b after = omega (arith, pages-removed before b after)

-- A block that is taken off the list.
pub removed-Fits :
    (s : Pmm) (before : List Block) (b : Block) (after : List Block)
    → Separate s (before ++ (b ∷ after))
    → Fits s b (before ++ after)
removed-Fits s [] b after f = f.0
removed-Fits s (x ∷ before) b after f =
    let rest = removed-Fits s before b after f.1 in
    record {
      aligned = rest.aligned;
      positive = rest.positive;
      within = rest.within;
      was_free = rest.was_free;
      alone = λ j h. elim (Bool-cases (holds x j)) [
        | inl y ↦ ground (arith, f.0.alone j y, covers-removed before b after j)
        | inr n ↦ ground (arith, n, rest.alone j h)
      ];
    }

pub removed-Separate :
    (s : Pmm) (before : List Block) (b : Block) (after : List Block)
    → Separate s (before ++ (b ∷ after))
    → Separate s (before ++ after)
removed-Separate s [] b after f = f.1
removed-Separate s (x ∷ before) b after f = (
  record {
    aligned = f.0.aligned;
    positive = f.0.positive;
    within = f.0.within;
    was_free = f.0.was_free;
    alone = λ j h. ground (arith, f.0.alone j h, covers-removed before b after j);
  },
  removed-Separate s before b after f.1,
)

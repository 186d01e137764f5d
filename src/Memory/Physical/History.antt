-- ===== src/Memory/Physical/History.antt =====
-- Histories of kernel/memory/physical.cpp: calls of `alloc` and `free` in any order, with what the
-- owners write to memory between them.
pub mod Blocks
pub mod Isolation
use ice.Prelude.{
  ℕ, ◌+◌, ◌-◌, ◌*◌, ◌/◌, ◌%◌, ◌^◌, ◌≤◌, ◌<◌, ◌≡◌, ◌⊎◌, inl, inr, refl, sym, ap, ◌∙◌, arith, Mem,
  Bool, true, false, ◌&&◌, ◌||◌, ltb, leb, if◌then◌else◌, List, [], ◌∷◌, ◌++◌, Bool-cases,
}
use ice.Utils.Bitmap.{Bitmap}
use ice.Utils.Math.{add64, sub64}
use ice.Memory.Physical.{Pmm, is_used, page_size, done, alloc, free}
use ice.Memory.Physical.Alloc.{limit, ApartFromBitmap, page_addr, IsValid, Allocated}
use ice.Memory.Physical.Retry.{alloc-Allocated}
use ice.Memory.Physical.Free.{Freed, free_lem}
use ice.Memory.Physical.Use.{KeepsBitmap, is_used-KeepsBitmap, IsValid-KeepsBitmap}
use Blocks.{
  Block, holds, covers, pages, page, Fits, Separate, covers-removed, pages-removed, removed-Fits,
  removed-Separate,
}

-- One call, or a write that spares the bitmap. The list has the blocks that were handed out and not
-- given back, the newest first; a block can be given back in any order, by its own count.
pub data Step (hhdm : ℕ) : Pmm → List Block → Pmm → List Block → Type 0 where
  allocates :
      {s s' : Pmm} {live : List Block} {ptr : ℕ} (count : ℕ)
      → 1 ≤ count
      → alloc hhdm count s ≡ done ptr s'
      → Step hhdm s live s' (record { ptr = ptr; count = count } ∷ live)
  frees :
      {s : Pmm} (before : List Block) (b : Block) (after : List Block)
      → Step hhdm s (before ++ (b ∷ after)) (free b.ptr b.count s) (before ++ after)
  writes :
      {s : Pmm} {live : List Block} (m : Mem)
      → KeepsBitmap s m
      → Step hhdm s live (record s { mem = m }) live

-- What a history that starts at `s` with nothing handed out can lead to.
pub data Reach (hhdm : ℕ) (s : Pmm) : Pmm → List Block → Type 0 where
  begins : Reach hhdm s s []
  later :
      {t u : Pmm} {live live' : List Block}
      → Reach hhdm s t live
      → Step hhdm t live u live'
      → Reach hhdm s u live'

-- The state refines a set of pages: those in use at the start, and those of the blocks.
pub record Refines (hhdm : ℕ) (s t : Pmm) (live : List Block) : Type 0 where
  pub valid : IsValid hhdm t
  pub separate : Separate s live
  pub exact : (j : ℕ) → j < 2048 → is_used t j ≡ (is_used s j || covers live j)
  pub accounted : t.used_memory ≡ (s.used_memory + pages live * page_size) % 2 ^ 64
  pub same_bitmap : t.bitmap ≡ s.bitmap
  pub same_top : t.mem_usable_top ≡ s.mem_usable_top

allocates-Refines :
    (hhdm : ℕ) (s t u : Pmm) (live : List Block) (ptr count : ℕ)
    → IsValid hhdm s
    → 1 ≤ count
    → alloc hhdm count t ≡ done ptr u
    → Refines hhdm s t live
    → Refines hhdm s u (record { ptr = ptr; count = count } ∷ live)
allocates-Refines hhdm s t u live ptr count v c e r = record {
  valid = a.valid;
  separate = (
    record {
      aligned = omega (arith, a.at);
      positive = omega (arith, a.at, a.positive);
      within = omega (arith, a.at, a.within, ap (λ x. x / page_size) r.same_top);
      was_free = λ j h. ground (arith, free_before j h, r.exact j (low j h));
      alone = λ j h. ground (arith, free_before j h, r.exact j (low j h));
    },
    r.separate,
  );
  exact = λ j l. ground (arith, a.bits j l, r.exact j l, a.at);
  accounted = omega (arith, a.accounted, r.accounted);
  same_bitmap = a.same_bitmap ∙ r.same_bitmap;
  same_top = a.same_top ∙ r.same_top;
}
  where
    a : Allocated hhdm count t ptr u
    a = alloc-Allocated hhdm count t c r.valid e

    b : Block
    b = record { ptr = ptr; count = count }

    low : (j : ℕ) → holds b j ≡ true → j < 2048
    low j h = ground (arith, a.at, a.within, r.valid.small)

    free_before : (j : ℕ) → holds b j ≡ true → is_used t j ≡ false
    free_before j h = a.was_free j (ground (arith, a.at)) (ground (arith, a.at))

frees-Refines :
    (hhdm : ℕ) (s t : Pmm) (before : List Block) (b : Block) (after : List Block)
    → IsValid hhdm s
    → Refines hhdm s t (before ++ (b ∷ after))
    → Refines hhdm s (free b.ptr b.count t) (before ++ after)
frees-Refines hhdm s t before b after v r = rw f.aligned (record {
  valid = did.1;
  separate = removed-Separate s before b after r.separate;
  exact = λ j l. ground (
    arith,
    did.0.bits j l,
    r.exact j l,
    covers-removed before b after j,
    f.was_free j,
    f.alone j,
  );
  accounted =
      omega (arith, did.0.accounted, r.accounted, pages-removed before b after, f.within, v.small);
  same_bitmap = did.0.same_bitmap ∙ r.same_bitmap;
  same_top = did.0.same_top ∙ r.same_top;
})
  where
    f : Fits s b (before ++ after)
    f = removed-Fits s before b after r.separate

    did :
        Freed b.count (page b) t (free (page b * page_size) b.count t)
        × IsValid hhdm (free (page b * page_size) b.count t)
    did =
        free_lem hhdm b.count (page b) t r.valid f.positive
          (omega (arith, f.within, ap (λ x. x / page_size) r.same_top))
          (λ j l h. omega (
            arith,
            v.guarded j (omega (arith, f.within)) (f.was_free j (ground arith)),
            ap (λ (x : Bitmap). x.buffer) r.same_bitmap,
          ))

writes-Refines :
    (hhdm : ℕ) (s t : Pmm) (live : List Block) (m : Mem)
    → KeepsBitmap t m
    → Refines hhdm s t live
    → Refines hhdm s (record t { mem = m }) live
writes-Refines hhdm s t live m k r = record {
  valid = IsValid-KeepsBitmap hhdm t m k r.valid;
  separate = r.separate;
  exact = λ j l. is_used-KeepsBitmap t m j k ∙ r.exact j l;
  accounted = r.accounted;
  same_bitmap = r.same_bitmap;
  same_top = r.same_top;
}

pub Step-Refines :
    {hhdm : ℕ} {s t u : Pmm} {live live' : List Block}
    → IsValid hhdm s
    → Step hhdm t live u live'
    → Refines hhdm s t live
    → Refines hhdm s u live'
Step-Refines {hhdm} {s} v (allocates {s = t} {s' = u} {live = live} {ptr = ptr} count c e) r =
    allocates-Refines hhdm s t u live ptr count v c e r
Step-Refines {hhdm} {s} v (frees {s = t} before b after) r =
    frees-Refines hhdm s t before b after v r
Step-Refines {hhdm} {s} v (writes {s = t} {live = live} m k) r = writes-Refines hhdm s t live m k r

-- From a valid state, so with at most 2048 pages and a number of used bytes of 64 bits, and with
-- nothing handed out, any history of successful calls of `alloc` for one page or more, of calls of
-- `free` for the blocks they gave, in any order, and of writes that spare the bitmap leaves a valid
-- state. The blocks not yet given back are then disjoint runs of pages that were free at the start.
-- A page is in use exactly if it was at the start or such a block has it, and the used memory has
-- grown by the size of these blocks, modulo 2 ^ 64.
pub Reach-Refines :
    {hhdm : ℕ} {s t : Pmm} {live : List Block}
    → IsValid hhdm s
    → s.used_memory < 2 ^ 64
    → Reach hhdm s t live
    → Refines hhdm s t live
Reach-Refines {hhdm} {s} v w begins = record {
  valid = v;
  separate = tt;
  exact = λ j l. ground arith;
  accounted = omega arith;
  same_bitmap = refl;
  same_top = refl;
}
Reach-Refines v w (later r st) = Step-Refines v st (Reach-Refines v w r)

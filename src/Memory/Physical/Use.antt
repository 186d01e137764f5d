-- ===== src/Memory/Physical/Use.antt =====
-- Writing to memory between `alloc` and `free`, kernel/memory/physical.cpp.
use ice.Prelude.{ℕ, ◌+◌, ◌*◌, ◌/◌, ◌^◌, ◌≤◌, ◌<◌, ◌≡◌, refl, sym, ap, ◌∙◌, arith, Mem}
use ice.Utils.Bitmap.{Bitmap}
use ice.Utils.Bitmap.Laws.{get-frame}
use ice.Memory.Physical.{Pmm, is_used, page_size, done, alloc, free}
use ice.Memory.Physical.Alloc.{IsValid, Allocated}
use ice.Memory.Physical.Retry.{alloc-Allocated}
use ice.Memory.Physical.Free.{Freed, free_lem}

-- The bytes of the bitmap are those of `s`.
abbrev pub KeepsBitmap : Pmm → Mem → Type 0
KeepsBitmap s m = (a : ℕ) → s.bitmap.buffer ≤ a → a < s.bitmap.buffer + 256 → m a ≡ s.mem a

pub is_used-KeepsBitmap :
    (s : Pmm) (m : Mem) (j : ℕ) → KeepsBitmap s m → is_used (record s { mem = m }) j ≡ is_used s j
unfolding is_used
is_used-KeepsBitmap s m j k = get-frame s.mem m s.bitmap j k

pub IsValid-KeepsBitmap :
    (hhdm : ℕ) (s : Pmm) (m : Mem)
    → KeepsBitmap s m
    → IsValid hhdm s
    → IsValid hhdm (record s { mem = m })
IsValid-KeepsBitmap hhdm s m k v = record {
  small = v.small;
  cursor = v.cursor;
  mapped = v.mapped;
  zero_used = is_used-KeepsBitmap s m 0 k ∙ v.zero_used;
  guarded = λ page l e. v.guarded page l (sym (is_used-KeepsBitmap s m page k) ∙ e);
}

-- What a block's owner writes outside the bitmap does not disturb `free`: it still undoes `alloc`.
pub free-alloc_used :
    (hhdm count : ℕ) (s : Pmm) {ptr : ℕ} {s' : Pmm} (m : Mem)
    → 1 ≤ count
    → IsValid hhdm s
    → s.used_memory < 2 ^ 64
    → alloc hhdm count s ≡ done ptr s'
    → KeepsBitmap s' m
    → ((j : ℕ) → j < 2048 → is_used (free ptr count (record s' { mem = m })) j ≡ is_used s j)
      × ((free ptr count (record s' { mem = m })).used_memory ≡ s.used_memory)
      × IsValid hhdm (free ptr count (record s' { mem = m }))
free-alloc_used hhdm count s {ptr} {s'} m c v w e k = rw a.at (
  λ j l. did.0.bits j l ∙ ground (arith, is_used-KeepsBitmap s' m j k, a.bits j l, a.was_free j),
  did.0.accounted ∙ omega (arith, a.accounted, a.within, v.small),
  did.1,
)
  where
    written : Pmm
    written = record s' { mem = m }

    a : Allocated hhdm count s ptr s'
    a = alloc-Allocated hhdm count s c v e

    did :
        Freed count a.page written (free (a.page * page_size) count written)
        × IsValid hhdm (free (a.page * page_size) count written)
    did =
        free_lem hhdm count a.page written (IsValid-KeepsBitmap hhdm s' m k a.valid) a.positive
          (omega (arith, a.within, ap (λ t. t / page_size) a.same_top))
          (λ j l h. omega (
            arith,
            v.guarded j (omega (arith, a.within)) (a.was_free j l h),
            ap (λ (t : Bitmap). t.buffer) a.same_bitmap,
          ))

-- From a valid state, so with at most 2048 pages, and with the used memory below 2 ^ 64, freeing what a
-- successful call of `alloc` for one page or more returned, with the same count, makes every page read as before the call, restores the used memory and
-- leaves a valid state.
pub free-alloc :
    (hhdm count : ℕ) (s : Pmm) {ptr : ℕ} {s' : Pmm}
    → 1 ≤ count
    → IsValid hhdm s
    → s.used_memory < 2 ^ 64
    → alloc hhdm count s ≡ done ptr s'
    → ((j : ℕ) → j < 2048 → is_used (free ptr count s') j ≡ is_used s j)
      × ((free ptr count s').used_memory ≡ s.used_memory)
      × IsValid hhdm (free ptr count s')
free-alloc hhdm count s {ptr} {s'} c v w e =
    free-alloc_used hhdm count s s'.mem c v w e (λ a p q. refl)

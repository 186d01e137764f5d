-- ===== src/Tests/Histories.antt =====
-- Histories of a slab of kernel/memory/memory.cpp.
use ice.Prelude.{ℕ, ◌+◌, ◌<◌, ◌≡◌, inl, inr, refl, arith, [], ◌∷◌, ◌==◌, if◌then◌else◌, load_bytes}
use ice.Memory.Physical.{Pmm}
use ice.Memory.Slab.{ok, slab_alloc, slab_free, malloc, get_slab, get_slab_from, realloc}
use ice.Memory.Slab.FreeList.{IsFree, slab_alloc-pop, slab_free-push}
use ice.Memory.Slab.History.{Reach, Invariant, begins, later, takes, gives, writes, Reach-Invariant}
use ice.Memory.Slab.Realloc.{IsObject, realloc_lem}
use ice.Tests.Heap.{heap, two_objects-IsFree, slab_sizes}
use ice.Tests.Pages.{four_pages}

-- The object at 256 is handed out, its owner leaves it as it is, and gives it back.
abbrev taken : Pmm
taken = (slab_alloc-pop 4096 64 16 256 heap two_objects-IsFree).0

abbrev taken-IsFree : IsFree taken.mem 64 16 (512 ∷ [])
taken-IsFree = (slab_alloc-pop 4096 64 16 256 heap two_objects-IsFree).2

abbrev given : Pmm
given =
    (slab_free-push 64 16 256 taken taken-IsFree (λ e. omega (arith, e)) (omega arith)
      (inl (omega arith)) (inl (omega arith), tt)).0

give_runs : slab_free 64 256 taken ≡ ok tt given
give_runs =
    (slab_free-push 64 16 256 taken taken-IsFree (λ e. omega (arith, e)) (omega arith)
      (inl (omega arith)) (inl (omega arith), tt)).1

history : Reach 4096 64 16 heap (256 ∷ 512 ∷ []) given (256 ∷ 512 ∷ []) []
history =
    later
      (later (later begins (takes (slab_alloc-pop 4096 64 16 256 heap two_objects-IsFree).1))
        (writes [] 256 [] taken.mem (λ a d. refl)))
      (gives [] 256 [] give_runs)

Reach-Invariant_example : Invariant 4096 64 16 given (256 ∷ 512 ∷ []) []
Reach-Invariant_example = Reach-Invariant 4096 64 16 two_objects-IsFree history

-- An object of 16 bytes at 0x1010 moves to one of 32 bytes at 0x2020.
abbrev two_sizes : ℕ → ℕ
two_sizes a =
    if a == 32
    then 0x20
    else (if a == 33
        then 0x20
        else (if a == 0x1000 then 16 else (if a == 0x1010 then 7 else slab_sizes a)))

abbrev two_slabs : Pmm
two_slabs = record four_pages { mem = two_sizes }

old-IsObject : IsObject two_sizes 16 16 0x1010
unfolding load_bytes
old-IsObject = record {
  inner = omega arith;
  word = omega arith;
  header = refl;
  object_size = refl;
  enough = omega arith;
}

new-IsFree : IsFree two_sizes 32 32 (0x2020 ∷ [])
unfolding load_bytes
new-IsFree = record {
  chain = (refl, λ e. omega (arith, e), omega arith, tt, refl);
  apart = (inl (omega arith), tt);
  object_size = refl;
  enough = (omega arith, omega arith);
}

chosen : malloc 4096 16 20 two_slabs ≡ slab_alloc 4096 32 two_slabs
unfolding malloc get_slab get_slab_from load_bytes
chosen = refl

realloc_lem_example :
    (s' : Pmm) × (realloc 4096 16 0x1010 20 two_slabs ≡ ok 0x2020 s')
    × ((j : ℕ) → j < 20 → j < 16 → s'.mem (0x2020 + j) ≡ two_sizes (0x1010 + j))
realloc_lem_example =
    realloc_lem 4096 16 20 16 16 0x1010 32 32 0x2020 two_slabs old-IsObject new-IsFree
      record {
        object = inl (omega arith);
        slab = inl (omega arith);
        header = inl (omega arith);
        other_object = inr (omega arith);
        other_size = inl (omega arith);
        other_header = inr (omega arith);
      }
      (omega arith) (omega arith) chosen

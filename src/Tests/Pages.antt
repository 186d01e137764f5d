-- ===== src/Tests/Pages.antt =====
-- The page allocator of kernel/memory/physical.cpp on a memory of four pages.
use ice.Prelude.{
  ℕ, true, ◌+◌, ◌*◌, ◌^◌, ◌<◌, ◌≡◌, inl, inr, refl, ap, arith, store, if◌then◌else◌, ◌==◌, List, [],
  ◌∷◌,
}
use native.Mathlib.Decide.{ℕ_discrete}
use ice.Utils.Math.{add64, align_up, tohh}
use ice.Utils.Bitmap.{get, set}
use ice.Libc.String.{memset, memset_loop}
use ice.Memory.Physical.{
  Pmm, is_used, mark_range, inner_alloc, finish, mark, alloc, free, done, total, usable, used,
  free_memory,
}
use ice.Memory.Physical.Alloc.{IsValid}
use ice.Memory.Physical.Retry.{alloc_lem, Result}
use ice.Memory.Physical.Use.{free-alloc}
use ice.Memory.Physical.History.{Reach, begins, later, allocates, frees, Refines, Reach-Refines}
use ice.Memory.Physical.History.Blocks.{Block}
use ice.Memory.Physical.History.Isolation.{calls_isolated}
use ice.Memory.Physical.Init.Valid.{IsMap, Started, init_lem}
use ice.Memory.Physical.Init.{Entry, boot, bitmap_size, place_bitmap, init}

abbrev pub offset : ℕ
offset = 2 ^ 47

-- The bitmap lies in page 0; pages 0 and 1 are used, 2 and 3 are free.
abbrev pub four_pages : Pmm
four_pages = record {
  mem = λ a. if a == offset then 3 else 255;
  bitmap = record { buffer = offset; size = 4096 };
  last_index = 0;
  mem_usable_top = 0x4000;
  mem_top = 0x4000;
  usable_memory = 0x4000;
  total_memory = 0x4000;
  used_memory = 0x2000;
}

pub is_used_low : (is_used four_pages 0 ≡ true) × (is_used four_pages 1 ≡ true)
unfolding is_used get
is_used_low = (refl, refl)

pub four_pages-IsValid : IsValid offset four_pages
four_pages-IsValid = record {
  small = omega arith;
  cursor = omega arith;
  mapped = (omega arith, omega arith);
  zero_used = is_used_low.0;
  guarded = λ page h free. elim (ℕ_discrete page 0) [
    | yes e ↦ absurd (ground (arith, is_used_low.0, ap (is_used four_pages) e, free))
    | no n ↦ inr (omega arith)
  ];
}

abbrev one_taken : Pmm
one_taken = record four_pages {
  mem = memset (set four_pages.mem four_pages.bitmap 2 true) (tohh offset 0x2000) 0 (1 * 0x1000);
  last_index = 3;
  used_memory = add64 0x2000 (1 * 0x1000);
}

alloc_one : alloc offset 1 four_pages ≡ done 0x2000 one_taken
unfolding alloc inner_alloc finish mark_range mark is_used get set store
alloc_one = refl

abbrev two_taken : Pmm
two_taken = record one_taken {
  mem = memset (set one_taken.mem one_taken.bitmap 3 true) (tohh offset 0x3000) 0 (1 * 0x1000);
  last_index = 4;
  used_memory = add64 one_taken.used_memory (1 * 0x1000);
}

alloc_two : alloc offset 1 one_taken ≡ done 0x3000 two_taken
unfolding alloc inner_alloc finish mark_range mark is_used get set tohh store memset memset_loop
alloc_two = refl

alloc_lem_example : Result offset 1 four_pages
alloc_lem_example = alloc_lem offset 1 four_pages (omega arith) four_pages-IsValid

free-alloc_example :
    ((j : ℕ) → j < 2048 → is_used (free 0x2000 1 one_taken) j ≡ is_used four_pages j)
    × ((free 0x2000 1 one_taken).used_memory ≡ 0x2000)
    × IsValid offset (free 0x2000 1 one_taken)
free-alloc_example =
    free-alloc offset 1 four_pages (omega arith) four_pages-IsValid (omega arith) alloc_one

-- Page 0 reserved, then two pages that can be used, then a page of the kernel.
abbrev entries : List Entry
entries =
    record { base = 0; length = 0x1000; kind = 1 }
    ∷ record { base = 0x1000; length = 0x2000; kind = 0 }
    ∷ record { base = 0x3000; length = 0x1000; kind = 6 }
    ∷ []

abbrev fresh : Pmm
fresh = record {
  mem = λ a. 255;
  bitmap = record { buffer = 0; size = 0 };
  last_index = 0;
  mem_usable_top = 0;
  mem_top = 0;
  usable_memory = 0;
  total_memory = 0;
  used_memory = 0;
}

boot_runs : (bitmap_size (boot (λ a. 0)) ≡ 0) × (total (boot (λ a. 0)) ≡ 0)
unfolding bitmap_size boot align_up total
boot_runs = (refl, refl)

free_memory_runs :
    (free_memory four_pages ≡ 0x2000) × (usable four_pages ≡ 0x4000) × (used four_pages ≡ 0x2000)
unfolding free_memory usable used
free_memory_runs = (refl, refl, refl)

-- The first entry that can be used gives the bitmap its page.
place_bitmap_runs : (place_bitmap offset 0x1000 entries fresh).1.used_memory ≡ 0x1000
unfolding place_bitmap
place_bitmap_runs = refl

-- Page 0 reserved, then eight pages that can be used.
abbrev boot_map : List Entry
boot_map =
    record { base = 0; length = 0x1000; kind = 1 }
    ∷ record { base = 0x1000; length = 0x8000; kind = 0 }
    ∷ []

boot_map-IsMap : IsMap offset boot_map
boot_map-IsMap = record {
  fits = (omega arith, (omega arith, tt));
  aligned = (
    λ h. absurd (ground (arith, h)),
    (λ h. record { base_aligned = refl; length_aligned = refl; low = omega arith }, tt),
  );
  separate = ((λ h. absurd (ground (arith, h))), ((λ h j l. refl), tt));
  room = refl;
  summed = omega arith;
  small = omega arith;
  large = omega arith;
  mapped = (omega arith, omega arith);
  zero_reserved = refl;
}

init_lem_example : Started offset boot_map (init offset boot_map (boot (λ a. 0))).1
init_lem_example = init_lem offset boot_map (λ a. 0) boot_map-IsMap

-- Two pages are handed out, and the first is given back.
abbrev first_block : Block
first_block = record { ptr = 0x2000; count = 1 }

abbrev second_block : Block
second_block = record { ptr = 0x3000; count = 1 }

history : Reach offset four_pages (free 0x2000 1 two_taken) (second_block ∷ [])
history =
    later
      (later (later begins (allocates 1 (omega arith) alloc_one))
        (allocates 1 (omega arith) alloc_two))
      (frees (second_block ∷ []) first_block [])

Reach-Refines_example : Refines offset four_pages (free 0x2000 1 two_taken) (second_block ∷ [])
Reach-Refines_example = Reach-Refines four_pages-IsValid (omega arith) history

calls_isolated_example : two_taken.mem (offset + 0x2008) ≡ one_taken.mem (offset + 0x2008)
calls_isolated_example =
    calls_isolated four_pages-IsValid (omega arith)
      (later begins (allocates 1 (omega arith) alloc_one)) 0x3000 1 two_taken (offset + 0x2008) 2
      (omega arith) (inl alloc_two) refl (omega arith) (omega arith)

-- ===== src/Tests/Vectors.antt =====
-- Vectors of kernel/include/libs/libc++/vector with a few numbers.
use ice.Prelude.{Bool, ℕ, ◌+◌, ◌≡◌, refl, arith, [], ◌∷◌, ◌++◌, true, false, ◌==◌, if◌then◌else◌}
use ice.Cxx.Vector.{panics, heap_finds, new_array, done, undefined}
use ice.Cxx.Vector.{
  Vector, push_back, erase, copy, empty_vector, at, front, back, is_empty, pop_back, clear, reserve,
  shrink_to_fit, resize, get, copy_items, put,
}
use ice.Cxx.Vector.Contents.{contents, IsVector}
use ice.Cxx.Vector.Edits.{first, rest, erase_lem}
use ice.Cxx.Vector.Ranges.{
  sized, filled, from_range, assign, assign_move, resize_with, insert_range, grow_by, shift_far,
  copy_range, fill_items,
}
use ice.Tests.Pages.{offset}
use ice.Tests.Heap.{heap}

-- 5, 6 and 7 in a block of four places.
abbrev numbers : Vector ℕ
numbers = record { block = record { room = 4; items = λ i. i + 5 }; sz = 3; cap = 4 }

abbrev no_numbers : Vector ℕ
no_numbers = empty_vector 0

numbers-IsVector : IsVector numbers
numbers-IsVector = record { room = refl; fits = omega arith }

-- The heap of the other tests, and one that always has memory.
abbrev heap_now : ℕ → Bool
heap_now = heap_finds offset 64 8 heap

abbrev always : ℕ → Bool
always n = true

erase_lem_example :
    (v' : Vector ℕ) × (erase 0 2 numbers ≡ done v')
    × IsVector v'
    × (contents numbers ≡ first 0 numbers ++ rest 0 numbers)
    × (contents v' ≡ first 0 numbers ++ rest 2 numbers)
erase_lem_example = erase_lem 0 2 numbers numbers-IsVector (omega arith) (omega arith)

-- A full vector, and a heap without memory.
no_memory_runs :
    (push_back 0 (λ n. false) 9 no_numbers ≡ panics)
    × (insert_range 0 (λ n. false) 1 1 2 numbers.block numbers ≡ panics)
    × (push_back 0 (λ n. false) 9 numbers
        ≡ done record numbers {
          block = record { room = 4; items = λ i. if i == 3 then 9 else i + 5 };
          sz = 4;
        })
unfolding push_back insert_range grow_by reserve new_array put
no_memory_runs = (refl, refl, refl)

access_runs :
    (at numbers 1 ≡ done 6)
    × (at numbers 4 ≡ undefined)
    × (front numbers ≡ done 5)
    × (back numbers ≡ done 7)
    × (front no_numbers ≡ undefined)
unfolding at front back get
access_runs = (refl, refl, refl, refl, refl)

sizes_run :
    ((pop_back numbers).sz ≡ 2) × ((clear numbers).sz ≡ 0) × (is_empty (clear numbers) ≡ true)
unfolding pop_back clear
sizes_run = (refl, refl, refl)

-- A first object needs a block, and one to spare is given back.
room_runs :
    (push_back 0 always 9 no_numbers
      ≡ done record {
        block = record { room = 1; items = λ i. if i == 0 then 9 else 0 };
        sz = 1;
        cap = 1;
      })
    × ((v' : Vector ℕ) × (shrink_to_fit 0 always numbers ≡ done v') × (v'.cap ≡ 3))
    × ((v' : Vector ℕ) × (resize 0 always 6 numbers ≡ done v') × (v'.cap ≡ 6) × (v'.sz ≡ 6))
unfolding push_back shrink_to_fit resize reserve new_array copy_items get put
room_runs = (refl, (_, refl, refl), (_, refl, refl, refl))

-- An empty range at the start: the loop goes on past place 0.
insert_nothing_run :
    (insert_range 0 always 0 0 0 numbers.block no_numbers ≡ undefined)
    × (insert_range 0 always 0 0 0 numbers.block numbers ≡ undefined)
unfolding insert_range new_array grow_by shift_far copy_range reserve get put
insert_nothing_run = (refl, refl)

ranges_run :
    ((v' : Vector ℕ) × (filled 0 always 2 9 ≡ done v') × (contents v' ≡ 9 ∷ 9 ∷ []))
    × ((v' : Vector ℕ) × (from_range 0 always 1 2 numbers.block ≡ done v')
        × (contents v' ≡ 6 ∷ 7 ∷ []))
    × ((v' : Vector ℕ) × (assign 0 always false numbers no_numbers ≡ done v')
        × (contents v' ≡ 5 ∷ 6 ∷ 7 ∷ []))
    × (assign_move 0 false numbers no_numbers ≡ (numbers, no_numbers))
    × ((v' : Vector ℕ) × (sized 0 always 2 ≡ done v') × (contents v' ≡ 0 ∷ 0 ∷ []))
    × ((v' : Vector ℕ) × (resize_with 0 always 5 1 numbers ≡ done v')
        × (contents v' ≡ 5 ∷ 6 ∷ 7 ∷ 1 ∷ 1 ∷ []))
unfolding filled sized new_array from_range assign assign_move resize_with fill_items copy_range
    copy copy_items reserve get put
ranges_run =
    ((_, refl, refl), (_, refl, refl), (_, refl, refl), refl, (_, refl, refl), (_, refl, refl))

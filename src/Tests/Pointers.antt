-- ===== src/Tests/Pointers.antt =====
-- Pointers of kernel/include/libs/libc++/memory in a program with two variables of each kind.
use ice.Prelude.{if◌then◌else◌, ◌==◌, ℕ, ◌≡◌, ◌≢◌, refl, arith, true, false, [], ◌∷◌}
use ice.Cxx.Pointer.{
  Control, Store, null, by_delete, by_delete_array, by_destructor, touch, add_weak, add_shared,
  release_weak, release_shared,
}
use ice.Cxx.Pointer.Shared
use ice.Cxx.Pointer.Weak
use ice.Cxx.Pointer.Counts.{count}
use ice.Cxx.Pointer.Operations.{CountedAll}
use ice.Cxx.Pointer.History.{Reach, begins, later, makes, watches, resets, Reach-Counted, lock_lem}

-- All that was made was given back.
abbrev gone : Control
gone = record {
  obj = 0;
  ref_count = 0;
  weak_count = 0;
  jointly_allocated = false;
  ended = by_delete ∷ [];
  freed = by_delete ∷ [];
}

abbrev first_store : Store
first_store = record { controls = λ c. gone; shared = λ d. null; weak = λ d. null }

first_store-counted : (c : ℕ) → c ≢ 0 → count 2 first_store.shared c ≡ 0
unfolding count
first_store-counted c z = ground (arith, z)

first_store-Counted : CountedAll 2 first_store
first_store-Counted c z =
    let e = first_store-counted c z in
    rw e record { refs = refl; weaks = refl; ended = refl; freed = refl }

-- `make_shared` of the object 80 with the block 64, and a weak pointer to it.
abbrev watched : Store
watched = Weak.from_shared 0 0 (Shared.make true 0 80 64 first_store)

watched-reached : Reach 2 first_store watched
unfolding Shared.make Weak.from_shared count
watched-reached =
    later (later begins (makes true 0 80 64 (omega arith) refl (omega arith) refl))
      (watches 0 0 (omega arith) (omega arith) refl)

Reach-Counted_example : CountedAll 2 (Shared.reset 0 watched)
Reach-Counted_example =
    Reach-Counted 2 first_store (Shared.reset 0 watched) (omega arith) first_store-Counted
      (later watched-reached (resets 0 (omega arith)))

watched-Counted : CountedAll 2 watched
watched-Counted =
    Reach-Counted 2 first_store watched (omega arith) first_store-Counted watched-reached

watched-held : (watched.weak 0).ctrl ≢ 0
unfolding Weak.from_shared Shared.make
watched-held = omega arith

lock_lem_example :
    (Weak.lock 1 0 watched).shared 1
    ≡ (if count 2 watched.shared (watched.weak 0).ctrl == 0 then null else watched.weak 0)
lock_lem_example = lock_lem 2 watched 1 0 watched-Counted watched-held

-- The object ends with its shared pointer, the block only with the weak one; then there is nothing
-- to lock.
ends_run :
    (((Shared.reset 0 watched).controls 64).ended ≡ by_destructor ∷ [])
    × (((Shared.reset 0 watched).controls 64).freed ≡ [])
    × (((Weak.reset 0 (Shared.reset 0 watched)).controls 64).freed ≡ by_delete_array ∷ [])
    × (Weak.use_count 0 watched ≡ 1)
    × (Weak.expired 0 (Shared.reset 0 watched) ≡ true)
    × ((Weak.lock 1 0 (Shared.reset 0 watched)).shared 1 ≡ null)
    × ((Weak.lock 1 0 watched).shared 1 ≡ record { ptr = 80; ctrl = 64 })
unfolding Shared.make Shared.reset Shared.delete Weak.from_shared Weak.reset Weak.delete Weak.lock
    release_shared release_weak add_shared add_weak touch
ends_run = (refl, refl, refl, refl, refl, refl, refl)

-- Assigned from a weak pointer of another type, the second is not counted: the block is given back
-- while the second still has it.
not_counted_run :
    ((Weak.assign_other_type 1 0 watched).weak 1 ≡ watched.weak 0)
    × (((Weak.assign_other_type 1 0 watched).controls 64).weak_count ≡ 2)
    × ((((Weak.reset 0 (Shared.reset 0 (Weak.assign_other_type 1 0 watched))).weak 1).ctrl ≡ 64)
        × (((Weak.reset 0 (Shared.reset 0 (Weak.assign_other_type 1 0 watched))).controls 64).freed
            ≡ by_delete_array ∷ []))
unfolding Shared.make Shared.reset Shared.delete Weak.from_shared Weak.reset Weak.delete
    Weak.assign_other_type release_shared release_weak add_weak touch
not_counted_run = (refl, refl, (refl, refl))

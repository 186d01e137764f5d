-- ===== src/Cxx/Pointer/History.antt =====
-- Programs over the variables of kernel/include/libs/libc++/memory's pointers: any sequence of their
-- operations. The assignment from a weak pointer of another type
-- is among them where that is null; elsewhere it is not counted.
use ice.Prelude.{refl, ==_iff, ℕ, ◌+◌, ◌<◌, ◌≡◌, ◌≢◌, ◌^◌, arith, Bool, ◌==◌, if◌then◌else◌}
use native.Mathlib.Decide.{ℕ_discrete}
use ice.Cxx.Pointer.{Store, aliased, null, touch}
use ice.Cxx.Pointer.Shared
use ice.Cxx.Pointer.Weak
use ice.Cxx.Pointer.Counts.{hit, count, hit≤count}
use ice.Cxx.Pointer.Variables.{
  same_block-Counted, count-cleared, release_shared-Counted, release_weak-Counted,
  null_shared-Counted, null_weak-Counted, move_shared-Counted, move_weak-Counted,
  add_shared-Counted, add_weak-Counted, hit≤cleared,
}
use ice.Cxx.Pointer.Operations.{
  CountedAll, make-Counted, assign-Counted, assign_move-Counted, assign_weak-Counted,
  assign_weak_move-Counted, lock-Counted,
}

-- The operations on the first `n` variables. What constructs a variable asks that it is null, and
-- `new` gives a block that no pointer has.
pub data Step (n : ℕ) (s : Store) : Store → Type 0 where
  makes :
      (jointly : Bool) (d obj c : ℕ)
      → d < n
      → (s.shared d).ctrl ≡ 0
      → c ≢ 0
      → count n s.shared c + count n s.weak c ≡ 0
      → Step n s (Shared.make jointly d obj c s)
  copies : (d e : ℕ) → d < n → e < n → d ≢ e → (s.shared d).ctrl ≡ 0 → Step n s (Shared.copy d e s)
  moves : (d e : ℕ) → d < n → e < n → d ≢ e → (s.shared d).ctrl ≡ 0 → Step n s (Shared.move d e s)
  copies_aliased :
      (d e obj : ℕ)
      → d < n
      → e < n
      → d ≢ e
      → (s.shared d).ctrl ≡ 0
      → Step n s (Shared.copy_aliased d e obj s)
  moves_aliased :
      (d e obj : ℕ)
      → d < n
      → e < n
      → d ≢ e
      → (s.shared d).ctrl ≡ 0
      → Step n s (Shared.move_aliased d e obj s)
  assigns : (d e : ℕ) → d < n → e < n → Step n s (Shared.assign d e s)
  assigns_moved : (d e : ℕ) → d < n → e < n → Step n s (Shared.assign_move d e s)
  resets : (d : ℕ) → d < n → Step n s (Shared.reset d s)
  copies_weak : (d e : ℕ) → d < n → e < n → d ≢ e → (s.weak d).ctrl ≡ 0 → Step n s (Weak.copy d e s)
  watches : (d e : ℕ) → d < n → e < n → (s.weak d).ctrl ≡ 0 → Step n s (Weak.from_shared d e s)
  moves_weak : (d e : ℕ) → d < n → e < n → d ≢ e → (s.weak d).ctrl ≡ 0 → Step n s (Weak.move d e s)
  assigns_weak : (d e : ℕ) → d < n → e < n → Step n s (Weak.assign d e s)
  assigns_weak_moved : (d e : ℕ) → d < n → e < n → Step n s (Weak.assign_move d e s)
  assigns_other_type_moved :
      (d e : ℕ) → d < n → e < n → d ≢ e → Step n s (Weak.assign_move_other_type d e s)
  assigns_other_type :
      (d e : ℕ) → d < n → (s.weak e).ctrl ≡ 0 → Step n s (Weak.assign_other_type d e s)
  assigns_shared : (d e : ℕ) → d < n → e < n → Step n s (Weak.assign_shared d e s)
  resets_weak : (d : ℕ) → d < n → Step n s (Weak.reset d s)
  locks : (d e : ℕ) → d < n → e < n → (s.shared d).ctrl ≡ 0 → Step n s (Weak.lock d e s)

pub data Reach (n : ℕ) (s : Store) : Store → Type 0 where
  begins : Reach n s s
  later : {t u : Store} → Reach n s t → Step n t u → Reach n s u

module _ (n : ℕ) (few : n + n < 2 ^ 64) (s : Store) (w : CountedAll n s) where
  Step-Counted : (t : Store) → Step n s t → CountedAll n t
  unfolding Shared.copy Shared.move Shared.copy_aliased Shared.move_aliased touch Shared.reset
      Shared.delete Weak.copy Weak.move Weak.reset Weak.delete Weak.assign_move_other_type
      Weak.assign_other_type Weak.from_shared Weak.assign_shared
  Step-Counted t (makes jointly d obj c h e z o) = make-Counted n few s w jointly d obj c h e z o
  Step-Counted t (copies d e h l ne o) =
      add_shared-Counted n few _ s.shared s.weak d (s.shared e) h
        (λ c. hit≤cleared n s.shared d h e c l ne)
        (null_shared-Counted n few s.controls s.shared s.weak d h o w)
  Step-Counted t (moves d e h l ne o) =
      move_shared-Counted n few _ s.shared s.weak d e (s.shared e).ptr h l ne
        (null_shared-Counted n few s.controls s.shared s.weak d h o w)
  Step-Counted t (copies_aliased d e obj h l ne o) =
      add_shared-Counted n few _ s.shared s.weak d (aliased (s.shared e) obj) h
        (λ c. hit≤cleared n s.shared d h e c l ne)
        (null_shared-Counted n few s.controls s.shared s.weak d h o w)
  Step-Counted t (moves_aliased d e obj h l ne o) =
      move_shared-Counted n few _ s.shared s.weak d e obj h l ne
        (null_shared-Counted n few s.controls s.shared s.weak d h o w)
  Step-Counted t (assigns d e h l) = assign-Counted n few s w d e h l
  Step-Counted t (assigns_moved d e h l) = assign_move-Counted n few s w d e h l
  Step-Counted t (resets d h) = release_shared-Counted n few s.controls s.shared s.weak d h w
  Step-Counted t (copies_weak d e h l ne o) =
      add_weak-Counted n few _ s.shared s.weak d (s.weak e) h
        (λ c. let u = hit≤cleared n s.weak d h e c l ne in omega (arith, u))
        (null_weak-Counted n few s.controls s.shared s.weak d h o w)
  Step-Counted t (watches d e h l o) =
      add_weak-Counted n few _ s.shared s.weak d (s.shared e) h
        (λ c. let u = hit≤count n s.shared e c l in omega (arith, u))
        (null_weak-Counted n few s.controls s.shared s.weak d h o w)
  Step-Counted t (moves_weak d e h l ne o) =
      move_weak-Counted n few _ s.shared s.weak d e h l ne
        (null_weak-Counted n few s.controls s.shared s.weak d h o w)
  Step-Counted t (assigns_weak d e h l) = assign_weak-Counted n few s w d e h l
  Step-Counted t (assigns_weak_moved d e h l) = assign_weak_move-Counted n few s w d e h l
  Step-Counted t (assigns_other_type_moved d e h l ne) =
      move_weak-Counted n few _ s.shared s.weak d e h l ne
        (release_weak-Counted n few s.controls s.shared s.weak d h w)
  Step-Counted t (assigns_other_type d e h o) =
      same_block-Counted n few _ s.shared s.weak d (s.weak e) h o
        (release_weak-Counted n few s.controls s.shared s.weak d h w)
  Step-Counted t (assigns_shared d e h l) =
      add_weak-Counted n few _ s.shared s.weak d (s.shared e) h
        (λ c. let u = hit≤count n s.shared e c l in omega (arith, u))
        (release_weak-Counted n few s.controls s.shared s.weak d h w)
  Step-Counted t (resets_weak d h) = release_weak-Counted n few s.controls s.shared s.weak d h w
  Step-Counted t (locks d e h l o) = lock-Counted n few s w d e h l o

-- Let a program have fewer than 2 ^ 63 variables of each kind, and assign to a weak pointer from one of
-- a different type only where that is null. Where the blocks of the first store agree with the
-- pointers (an address without a block is one that was given back), they agree in each store that
-- such a program reaches: a block counts its shared pointers, and all its pointers; its object was ended
-- as it was made, exactly once if no shared pointer is left and else not, and the block was given
-- back as it was made, exactly once if no pointer is left and else not.
pub Reach-Counted :
    (n : ℕ) (s t : Store) → n + n < 2 ^ 64 → CountedAll n s → Reach n s t → CountedAll n t
Reach-Counted n s _ few w begins = w
Reach-Counted n s t few w (later {t = u} r step) =
    Step-Counted n few u (Reach-Counted n s u few w r) t step

-- In a store whose blocks agree with the pointers, `lock` of a weak pointer with a block gives what
-- the weak pointer has if a shared pointer with the block is left, and null if none is.
pub lock_lem :
    (n : ℕ) (s : Store) (d e : ℕ)
    → CountedAll n s
    → (s.weak e).ctrl ≢ 0
    → (Weak.lock d e s).shared d
      ≡ (if count n s.shared (s.weak e).ctrl == 0 then null else s.weak e)
unfolding Weak.lock
lock_lem n s d e w z =
    let r = (w (s.weak e).ctrl z).refs in
    elim (ℕ_discrete (s.controls (s.weak e).ctrl).ref_count 0) [
      | yes q ↦ ground (arith, r, q, z)
      | no q ↦ ground (arith, r, q, z)
    ]

-- The assignment from another weak pointer of a different type that has a block leaves the block's
-- count of pointers one too small.
pub uncounted_lem :
    (n : ℕ) (s : Store) (d e : ℕ)
    → n + n < 2 ^ 64
    → CountedAll n s
    → d < n
    → (s.weak e).ctrl ≢ 0
    → ((Weak.assign_other_type d e s).controls (s.weak e).ctrl).weak_count + 1
      ≡ count n s.shared (s.weak e).ctrl
        + count n (Weak.assign_other_type d e s).weak (s.weak e).ctrl
unfolding Weak.assign_other_type Weak.delete
uncounted_lem n s d e few w h z =
    let c = (s.weak e).ctrl in
    let k = (release_weak-Counted n few s.controls s.shared s.weak d h w c z).weaks in
    let more = count-cleared n s.weak d h (s.weak e) c z in
    let hits : hit (s.weak e) c ≡ 1 = rw ((==_iff c c).1 refl) refl in omega (arith, k, more, hits)

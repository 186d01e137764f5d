-- ===== src/Cxx/Pointer/Operations.antt =====
-- The operations of kernel/include/libs/libc++/memory's pointers against the counts of the blocks.
use ice.Prelude.{ℕ, ◌+◌, ◌≤◌, ◌<◌, ◌≡◌, ◌≢◌, ◌^◌, refl, sym, ap, ◌∙◌, arith, Bool, ==_iff, ne→==}
use native.Mathlib.Decide.{ℕ_discrete}
use ice.Cxx.Pointer.{Pointer, Store, null, put, touch, add_shared}
use ice.Cxx.Pointer.Shared
use ice.Cxx.Pointer.Weak
use ice.Cxx.Pointer.Counts.{hit, count}
use ice.Cxx.Pointer.Controls.{new_control-Sound}
use ice.Cxx.Pointer.Variables.{
  Counted, release_shared-Counted, release_weak-Counted, null_shared-Counted, move_shared-Counted,
  move_weak-Counted, add_shared-Counted, add_weak-Counted, hit≤cleared, count-null, count-cleared,
}

abbrev pub CountedAll : ℕ → Store → Type 0
CountedAll n s = Counted n s.controls s.shared s.weak

module _ (n : ℕ) (few : n + n < 2 ^ 64) (s : Store) (w : CountedAll n s) where
  pub make-Counted :
      (jointly : Bool) (d obj c : ℕ)
      → d < n
      → (s.shared d).ctrl ≡ 0
      → c ≢ 0
      → count n s.shared c + count n s.weak c ≡ 0
      → CountedAll n (Shared.make jointly d obj c s)
  unfolding Shared.make
  make-Counted jointly d obj c h e z o c' z' =
      let p : Pointer = record { ptr = obj; ctrl = c } in
      let q = count-cleared n s.shared d h p c' z' in
      let q' = count-null n s.shared d h c' z' e in
      elim (ℕ_discrete c' c) [
        | yes y ↦
            let k : hit p c' ≡ 1 = rw ((==_iff c c').1 (sym y)) refl in
            let o' : count n s.shared c' + count n s.weak c' ≡ 0 =
              ap (λ t. count n s.shared t + count n s.weak t) y ∙ o in
            let one : count n (put s.shared d p) c' ≡ 1 = omega (arith, q, q', k, o') in
            let none : count n s.weak c' ≡ 0 = omega (arith, o') in
            rw ((==_iff c' c).1 y, one, none) (new_control-Sound jointly obj)
        | no y ↦
            let k : hit p c' ≡ 0 = rw (ne→== c c' (omega (arith, y))) refl in
            let same : count n (put s.shared d p) c' ≡ count n s.shared c' =
              omega (arith, q, q', k) in
            rw (ne→== c' c y, same) (w c' z')
      ]

  -- A variable after `__delete`, that takes what another has.
  pub assign-Counted : (d e : ℕ) → d < n → e < n → CountedAll n (Shared.assign d e s)
  unfolding Shared.assign Shared.copy Shared.delete
  assign-Counted d e h l = elim (ℕ_discrete d e) [
    | yes q ↦ rw ((==_iff d e).1 q) w
    | no q ↦ rw (ne→== d e q) (
        add_shared-Counted n few _ s.shared s.weak d (s.shared e) h
          (λ c. hit≤cleared n s.shared d h e c l q)
          (release_shared-Counted n few s.controls s.shared s.weak d h w))
  ]

  pub assign_move-Counted : (d e : ℕ) → d < n → e < n → CountedAll n (Shared.assign_move d e s)
  unfolding Shared.assign_move Shared.move Shared.delete
  assign_move-Counted d e h l = elim (ℕ_discrete d e) [
    | yes q ↦ rw ((==_iff d e).1 q) w
    | no q ↦ rw (ne→== d e q) (
        move_shared-Counted n few _ s.shared s.weak d e (s.shared e).ptr h l q
          (release_shared-Counted n few s.controls s.shared s.weak d h w))
  ]

  pub assign_weak-Counted : (d e : ℕ) → d < n → e < n → CountedAll n (Weak.assign d e s)
  unfolding Weak.assign Weak.copy Weak.delete
  assign_weak-Counted d e h l = elim (ℕ_discrete d e) [
    | yes q ↦ rw ((==_iff d e).1 q) w
    | no q ↦ rw (ne→== d e q) (
        add_weak-Counted n few _ s.shared s.weak d (s.weak e) h
          (λ c. let u = hit≤cleared n s.weak d h e c l q in omega (arith, u))
          (release_weak-Counted n few s.controls s.shared s.weak d h w))
  ]

  pub assign_weak_move-Counted : (d e : ℕ) → d < n → e < n → CountedAll n (Weak.assign_move d e s)
  unfolding Weak.assign_move Weak.move Weak.delete
  assign_weak_move-Counted d e h l = elim (ℕ_discrete d e) [
    | yes q ↦ rw ((==_iff d e).1 q) w
    | no q ↦ rw (ne→== d e q) (
        move_weak-Counted n few _ s.shared s.weak d e h l q
          (release_weak-Counted n few s.controls s.shared s.weak d h w))
  ]

  pub lock-Counted :
      (d e : ℕ) → d < n → e < n → (s.shared d).ctrl ≡ 0 → CountedAll n (Weak.lock d e s)
  unfolding Weak.lock touch add_shared
  lock-Counted d e h l o =
      let p = s.weak e in
      let cleared = null_shared-Counted n few s.controls s.shared s.weak d h o w in
      elim (ℕ_discrete p.ctrl 0) [
        | yes z ↦ rw ((==_iff p.ctrl 0).1 z) cleared
        | no z ↦ elim (ℕ_discrete (s.controls p.ctrl).ref_count 0) [
          | yes r ↦ rw (ne→== p.ctrl 0 z, (==_iff (s.controls p.ctrl).ref_count 0).1 r) cleared
          | no r ↦
              let u : (c : ℕ) → hit p c ≤ count n (put s.shared d null) c = λ c.
                elim (ℕ_discrete p.ctrl c) [
                  | yes q ↦
                      let k = count-null n s.shared d h c (omega (arith, q, z)) o in
                      let i = (w c (omega (arith, q, z))).refs in
                      let i' = ap (λ t. (s.controls t).ref_count) q in
                      rw ((==_iff p.ctrl c).1 q) (omega (arith, k, i, i', r))
                  | no q ↦ rw (ne→== p.ctrl c q) (omega arith)
                ] in
              let added = add_shared-Counted n few s.controls s.shared s.weak d p h u cleared in
              rw (ne→== p.ctrl 0 z, ne→== (s.controls p.ctrl).ref_count 0 r)
                (simp (ne→== p.ctrl 0 z) at added)
        ]
      ]

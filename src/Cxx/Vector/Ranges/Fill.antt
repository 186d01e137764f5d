-- ===== src/Cxx/Vector/Ranges/Fill.antt =====
-- `resize` with a value in kernel/include/libs/libc++/vector.
use ice.Prelude.{
  Bool, false, inl, inr, ◌⊎◌, ℕ, ◌+◌, ◌-◌, ◌^◌, ◌≤◌, ◌<◌, ◌≡◌, refl, ◌∙◌, arith, ◌++◌, ltb,
  if◌then◌else◌, lt→ltb, le→ltb,
}
use ice.Cxx.Vector.{done}
use native.Mathlib.Decide.{dec_lt}
use ice.Cxx.Vector.{Vector, reserve, panics}
use ice.Cxx.Vector.Contents.{build, build_parts, contents, IsVector, found-cases, reserve-panics}
use ice.Cxx.Vector.Ranges.{resize_with}
use ice.Cxx.Vector.Ranges.Loops.{fill_items-IsFilled}
use ice.Cxx.Vector.Ranges.Insert.{Room, reserve-Room, same-Room}

module _ {ℓ} {A : Type ℓ} (blank : A) (finds : ℕ → Bool) (v : Vector A) (w : IsVector v) (n : ℕ)
    (g : n < 2 ^ 64) where
  resize_with-Room :
      (x : A) (u : Vector A)
      → v.sz ≤ n
      → (if ltb v.cap n then reserve blank finds n v else done v) ≡ done u
      → Room n v u
      → (v' : Vector A) × (resize_with blank finds n x v ≡ done v')
        × IsVector v'
        × (contents v' ≡ contents v ++ build (n - v.sz) (λ i. x))
  unfolding resize_with
  resize_with-Room x u l e k =
      let (b, f, s) =
        fill_items-IsFilled (n - u.sz) u.sz x u.block
          (omega (arith, k.vector.room, k.enough, k.same_size, l)) in
      (
        record u { block = b; sz = n },
        rw (e, f) refl,
        record { room = s.same_room ∙ k.vector.room; fits = k.enough },
        build_parts n v.sz (n - v.sz) b.items v.block.items (λ i. x) (omega (arith, l))
            (λ j q. s.outside j (omega (arith, k.same_size)) ∙ k.same j q)
            (λ j q. s.inside (j + v.sz) (omega (arith, k.same_size)) (omega (arith, k.same_size))),
      )

  resize_with-panics :
      (x : A)
      → (if ltb v.cap n then reserve blank finds n v else done v) ≡ panics
      → resize_with blank finds n x v ≡ panics
  unfolding resize_with
  resize_with-panics x e = rw e refl

  -- `resize` to a size that is not smaller, on a vector whose block has room for its capacity, panics
  -- where the size is larger than the capacity and the heap has no memory for it; else it succeeds and
  -- leaves such a vector with the value behind the objects, up to the size.
  pub resize_with_lem :
      (x : A)
      → v.cap < 2 ^ 64
      → v.sz ≤ n
      → ((v.cap < n) × (finds n ≡ false) × (resize_with blank finds n x v ≡ panics))
        ⊎ ((v' : Vector A) × (resize_with blank finds n x v ≡ done v')
            × IsVector v'
            × (contents v' ≡ contents v ++ build (n - v.sz) (λ i. x)))
  resize_with_lem x h l = elim (dec_lt v.cap n) [
    | no q ↦ inr (
        resize_with-Room x v l (rw (le→ltb v.cap n (omega (arith, q))) refl)
          (same-Room blank finds v w n (omega (arith, q)) h))
    | yes q ↦ elim (found-cases (finds n)) [
      | inl found ↦
          let (u, e, r) = reserve-Room blank finds v w n q g found in
          inr (resize_with-Room x u l (rw (lt→ltb v.cap n q) e) r)
      | inr missing ↦ inl (
        q,
        missing,
        resize_with-panics x (rw (lt→ltb v.cap n q) (reserve-panics blank finds n v q missing)),
      )
    ]
  ]

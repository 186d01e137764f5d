-- ===== src/Cxx/Vector/Ranges/Loops.antt =====
-- What the loops over several objects of kernel/include/libs/libc++/vector leave in a block.
use ice.Prelude.{
  ℕ, zero, suc, ◌+◌, ◌-◌, ◌≤◌, ◌<◌, ◌^◌, ◌≡◌, refl, sym, ap, ◌∙◌, arith, lt→ltb, le→ltb,
}
use ice.Cxx.Vector.{done}
use native.Mathlib.Decide.{ℕ_discrete}
use ice.Utils.Math.{sub64}
use ice.Cxx.Vector.{Block}
use ice.Cxx.Vector.Loops.{IsFilled, placed, get_inside, put_inside, placed_here, placed_other}
use ice.Cxx.Vector.Ranges.{fill_items, copy_range, shift_far}

module _ {ℓ} {A : Type ℓ} where
  pub fill_items-IsFilled :
      (left i : ℕ) (x : A) (b : Block A)
      → i + left ≤ b.room
      → (b' : Block A) × (fill_items left i x b ≡ done b') × IsFilled i (i + left) (λ j. x) b b'
  unfolding fill_items
  fill_items-IsFilled zero i x b h = (
    b,
    refl,
    record { same_room = refl; inside = λ j l u. absurd (omega arith); outside = λ j o. refl },
  )
  fill_items-IsFilled (suc left) i x b h =
      let (b', e, w) = fill_items-IsFilled left (i + 1) x (placed b i x) (omega arith) in
      (
        b',
        rw (put_inside b i x (omega arith)) e,
        record {
          same_room = w.same_room;
          inside = λ j l u. elim (ℕ_discrete j i) [
            | yes q ↦ w.outside j (omega arith) ∙ placed_here b i j x q
            | no q ↦ w.inside j (omega arith) (omega arith)
          ];
          outside = λ j o. w.outside j (omega arith) ∙ placed_other b i j x (omega arith);
        },
      )

  pub copy_range-IsFilled :
      (left start i : ℕ) (from to : Block A)
      → start + left ≤ from.room
      → i + left ≤ to.room
      → (b : Block A) × (copy_range left start i from to ≡ done b)
        × IsFilled i (i + left) (λ j. from.items (start + (j - i))) to b
  unfolding copy_range
  copy_range-IsFilled zero start i from to h g = (
    to,
    refl,
    record { same_room = refl; inside = λ j l u. absurd (omega arith); outside = λ j o. refl },
  )
  copy_range-IsFilled (suc left) start i from to h g =
      let x = from.items start in
      let (b, e, w) =
        copy_range-IsFilled left (start + 1) (i + 1) from (placed to i x) (omega arith)
          (omega arith) in
      (
        b,
        rw (get_inside from start (omega arith), put_inside to i x (omega arith)) e,
        record {
          same_room = w.same_room;
          inside = λ j l u. elim (ℕ_discrete j i) [
            | yes q ↦
                w.outside j (omega arith)
                ∙ placed_here to i j x q
                ∙ ap from.items (omega (arith, q))
            | no q ↦ w.inside j (omega arith) (omega arith) ∙ ap from.items (omega (arith, q))
          ];
          outside = λ j o. w.outside j (omega arith) ∙ placed_other to i j x (omega arith);
        },
      )

  shift_far-next :
      (f i lo n : ℕ) (b : Block A)
      → 0 < lo
      → n ≤ lo
      → lo ≤ i
      → i < b.room
      → b.room < 2 ^ 64
      → shift_far (suc f) i lo n b ≡ shift_far f (i - 1) lo n (placed b i (b.items (i - n)))
  unfolding shift_far
  shift_far-next f i lo n b p q l r w =
      let before : sub64 i n ≡ i - n = omega arith in
      let next : sub64 i 1 ≡ i - 1 = omega arith in
      rw
        (
          le→ltb i lo l,
          before,
          next,
          get_inside b (i - n) (omega arith),
          put_inside b i (b.items (i - n)) r,
        )
        refl

  -- From `i` down to the place `lo`, which is not 0.
  pub shift_far-IsFilled :
      (left f i lo n : ℕ) (b : Block A)
      → i + 1 ≡ lo + left
      → 0 < lo
      → n ≤ lo
      → left < f
      → i < b.room
      → b.room < 2 ^ 64
      → (b' : Block A) × (shift_far f i lo n b ≡ done b')
        × IsFilled lo (lo + left) (λ j. b.items (j - n)) b b'
  unfolding shift_far
  shift_far-IsFilled left zero i lo n b e p q h r w = absurd (omega arith)
  shift_far-IsFilled zero (suc f) i lo n b e p q h r w = (
    b,
    rw (lt→ltb i lo (omega arith)) refl,
    record { same_room = refl; inside = λ j l u. absurd (omega arith); outside = λ j o. refl },
  )
  shift_far-IsFilled (suc left) (suc f) i lo n b e p q h r w =
      let x = b.items (i - n) in
      let (b', ran, s) =
        shift_far-IsFilled left f (i - 1) lo n (placed b i x) (omega arith) p q (omega arith)
          (omega arith) w in
      (
        b',
        shift_far-next f i lo n b p q (omega arith) r w ∙ ran,
        record {
          same_room = s.same_room;
          inside = λ j l u. elim (ℕ_discrete j i) [
            | yes y ↦
                s.outside j (omega arith)
                ∙ placed_here b i j x y
                ∙ ap (λ t. b.items (t - n)) (sym y)
            | no y ↦
                s.inside j l (omega (arith, y))
                ∙ placed_other b i (j - n) x (omega (arith, y, l, u))
          ];
          outside = λ j o. s.outside j (omega arith) ∙ placed_other b i j x (omega arith);
        },
      )

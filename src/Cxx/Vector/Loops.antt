-- ===== src/Cxx/Vector/Loops.antt =====
-- What the loops of kernel/include/libs/libc++/vector leave in a block.
use ice.Prelude.{
  ℕ, zero, suc, ◌+◌, ◌-◌, ◌≤◌, ◌<◌, ◌≡◌, ◌≢◌, ◌⊎◌, refl, sym, ap, ◌∙◌, arith, lt→ltb, if◌then◌else◌,
  ◌==◌, ==_iff, ne→==,
}
use ice.Cxx.Vector.{done}
use native.Mathlib.Decide.{ℕ_discrete}
use ice.Cxx.Vector.{Block, get, put, copy_items, shift_up, shift_down}

-- The places from `lo` to before `hi` hold `f`; the others and the room are as before.
pub record IsFilled {ℓ} {A : Type ℓ} (lo hi : ℕ) (f : ℕ → A) (before after : Block A) : Type ℓ where
  pub same_room : after.room ≡ before.room
  pub inside : (j : ℕ) → lo ≤ j → j < hi → after.items j ≡ f j
  pub outside : (j : ℕ) → (j < lo) ⊎ (hi ≤ j) → after.items j ≡ before.items j

module _ {ℓ} {A : Type ℓ} where
  abbrev pub placed : Block A → ℕ → A → Block A
  placed b i x = record b { items = λ j. if j == i then x else b.items j }

  pub get_inside : (b : Block A) (i : ℕ) → i < b.room → get b i ≡ done (b.items i)
  unfolding get
  get_inside b i h = rw (lt→ltb i b.room h) refl

  pub put_inside : (b : Block A) (i : ℕ) (x : A) → i < b.room → put b i x ≡ done (placed b i x)
  unfolding put
  put_inside b i x h = rw (lt→ltb i b.room h) refl

  pub placed_here : (b : Block A) (i j : ℕ) (x : A) → j ≡ i → (placed b i x).items j ≡ x
  placed_here b i j x e = rw ((==_iff j i).1 e) refl

  pub placed_other : (b : Block A) (i j : ℕ) (x : A) → j ≢ i → (placed b i x).items j ≡ b.items j
  placed_other b i j x e = rw (ne→== j i e) refl

  pub copy_items-IsFilled :
      (left i : ℕ) (from to : Block A)
      → i + left ≤ from.room
      → i + left ≤ to.room
      → (b : Block A) × (copy_items left i from to ≡ done b) × IsFilled i (i + left) from.items to b
  unfolding copy_items
  copy_items-IsFilled zero i from to h g = (
    to,
    refl,
    record { same_room = refl; inside = λ j l u. absurd (omega arith); outside = λ j o. refl },
  )
  copy_items-IsFilled (suc left) i from to h g =
      let to' = placed to i (from.items i) in
      let (b, e, w) = copy_items-IsFilled left (i + 1) from to' (omega arith) (omega arith) in
      (
        b,
        rw (get_inside from i (omega arith), put_inside to i (from.items i) (omega arith)) e,
        record {
          same_room = w.same_room;
          inside = λ j l u. elim (ℕ_discrete j i) [
            | yes q ↦
                w.outside j (omega arith)
                ∙ placed_here to i j (from.items i) q
                ∙ ap from.items (sym q)
            | no q ↦ w.inside j (omega arith) (omega arith)
          ];
          outside =
              λ j o. w.outside j (omega arith) ∙ placed_other to i j (from.items i) (omega arith);
        },
      )

  pub shift_up-IsFilled :
      (left i : ℕ) (b : Block A)
      → left ≤ i
      → i < b.room
      → (b' : Block A) × (shift_up left i b ≡ done b')
        × IsFilled (i + 1 - left) (i + 1) (λ j. b.items (j - 1)) b b'
  unfolding shift_up
  shift_up-IsFilled zero i b h g = (
    b,
    refl,
    record { same_room = refl; inside = λ j l u. absurd (omega arith); outside = λ j o. refl },
  )
  shift_up-IsFilled (suc left) i b h g =
      let x = b.items (i - 1) in
      let (b', e, w) = shift_up-IsFilled left (i - 1) (placed b i x) (omega arith) (omega arith) in
      (
        b',
        rw (get_inside b (i - 1) (omega arith), put_inside b i x g) e,
        record {
          same_room = w.same_room;
          inside = λ j l u. elim (ℕ_discrete j i) [
            | yes q ↦
                w.outside j (omega arith)
                ∙ placed_here b i j x q
                ∙ ap (λ t. b.items (t - 1)) (sym q)
            | no q ↦
                w.inside j (omega arith) (omega arith) ∙ placed_other b i (j - 1) x (omega arith)
          ];
          outside = λ j o. w.outside j (omega arith) ∙ placed_other b i j x (omega arith);
        },
      )

  pub shift_down-IsFilled :
      (left i n : ℕ) (b : Block A)
      → i + left + n ≤ b.room
      → (b' : Block A) × (shift_down left i n b ≡ done b')
        × IsFilled i (i + left) (λ j. b.items (j + n)) b b'
  unfolding shift_down
  shift_down-IsFilled zero i n b h = (
    b,
    refl,
    record { same_room = refl; inside = λ j l u. absurd (omega arith); outside = λ j o. refl },
  )
  shift_down-IsFilled (suc left) i n b h =
      let x = b.items (i + n) in
      let (b', e, w) = shift_down-IsFilled left (i + 1) n (placed b i x) (omega arith) in
      (
        b',
        rw (get_inside b (i + n) (omega arith), put_inside b i x (omega arith)) e,
        record {
          same_room = w.same_room;
          inside = λ j l u. elim (ℕ_discrete j i) [
            | yes q ↦
                w.outside j (omega arith)
                ∙ placed_here b i j x q
                ∙ ap (λ t. b.items (t + n)) (sym q)
            | no q ↦
                w.inside j (omega arith) (omega arith) ∙ placed_other b i (j + n) x (omega arith)
          ];
          outside = λ j o. w.outside j (omega arith) ∙ placed_other b i j x (omega arith);
        },
      )

-- ===== src/Cxx/Vector/Edits.antt =====
-- Inserting into a vector of kernel/include/libs/libc++/vector and erasing from it.
use ice.Prelude.{ℕ, ◌+◌, ◌-◌, ◌^◌, ◌≤◌, ◌<◌, ◌≡◌, refl, ap, ◌∙◌, arith, List, ◌++◌}
use ice.Cxx.Vector.{done}
use ice.Utils.Math.{sub64}
use ice.Cxx.Vector.{Vector, erase}
use ice.Cxx.Vector.Loops.{shift_down-IsFilled}
use ice.Cxx.Vector.Contents.{build, build_parts, contents, IsVector}

module _ {ℓ} {A : Type ℓ} where
  -- The objects before a place, and those from a place on.
  abbrev pub first : ℕ → Vector A → List A
  first idx v = build idx v.block.items

  abbrev pub rest : ℕ → Vector A → List A
  rest idx v = build (v.sz - idx) (λ i. v.block.items (i + idx))

  pub contents-first :
      (idx : ℕ) (v : Vector A) → idx ≤ v.sz → contents v ≡ first idx v ++ rest idx v
  contents-first idx v h =
      build_parts v.sz idx (v.sz - idx) v.block.items v.block.items (λ i. v.block.items (i + idx))
        (omega arith) (λ i l. refl) (λ i l. refl)

  -- `erase` of `n` objects from an index on, all of them within the vector, whose block has room for
  -- its capacity and which has fewer than 2 ^ 64 objects, succeeds and leaves the objects before them
  -- and those behind them.
  pub erase_lem :
      (idx n : ℕ) (v : Vector A)
      → IsVector v
      → v.sz < 2 ^ 64
      → idx + n ≤ v.sz
      → (v' : Vector A) × (erase idx n v ≡ done v')
        × IsVector v'
        × (contents v ≡ first idx v ++ rest idx v)
        × (contents v' ≡ first idx v ++ rest (idx + n) v)
  unfolding erase
  erase_lem idx n v w h l =
      let size : sub64 v.sz n ≡ v.sz - n = omega arith in
      let (b, f, s) =
        shift_down-IsFilled (sub64 v.sz n - idx) idx n v.block (omega (arith, w.room, w.fits)) in
      (
        record v { block = b; sz = sub64 v.sz n },
        rw f refl,
        record { room = s.same_room ∙ w.room; fits = omega (arith, w.fits) },
        contents-first idx v (omega arith),
        build_parts (sub64 v.sz n) idx (v.sz - (idx + n)) b.items v.block.items
            (λ i. v.block.items (i + (idx + n))) (omega arith) (λ j q. s.outside j (omega arith))
            (λ j q.
              s.inside (j + idx) (omega arith) (omega arith) ∙ ap v.block.items (omega arith)),
      )

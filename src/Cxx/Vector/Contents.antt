-- ===== src/Cxx/Vector/Contents.antt =====
-- A vector of kernel/include/libs/libc++/vector as the list of its objects.
use ice.Prelude.{
  Bool, true, false, inl, inr, ◌⊎◌, ℕ, zero, suc, ◌+◌, ◌^◌, ◌≤◌, ◌<◌, ◌≡◌, refl, ap, ◌∙◌, arith,
  lt→ltb, ==_iff, ne→==, List, [], ◌∷◌, ◌++◌,
}
use ice.Cxx.Vector.{done}
use mathlib.Core.Path.{ap₂}
use native.Mathlib.Decide.{ℕ_discrete}
use ice.Utils.Math.{add64}
use ice.Cxx.Vector.{Vector, reserve, grow, push_back, new_block, new_array, next_cap, panics}
use ice.Cxx.Vector.Loops.{placed, placed_here, placed_other, put_inside, copy_items-IsFilled}

pub found-cases : (b : Bool) → (b ≡ true) ⊎ (b ≡ false)
found-cases true = inl refl
found-cases false = inr refl

-- The first `n` values of `f`.
abbrev pub build {ℓ} : {A : Type ℓ} → ℕ → (ℕ → A) → List A
build zero f = []
build (suc n) f = f 0 ∷ build n (λ i. f (i + 1))

module _ {ℓ} {A : Type ℓ} where
  pub build_ext : (n : ℕ) (f g : ℕ → A) → ((i : ℕ) → i < n → f i ≡ g i) → build n f ≡ build n g
  build_ext zero f g h = refl
  build_ext (suc n) f g h =
      ap₂ (λ a xs. a ∷ xs) (h 0 (omega arith)) (build_ext n _ _ (λ i l. h (i + 1) (omega arith)))

  build_split : (n k : ℕ) (f : ℕ → A) → build (n + k) f ≡ build n f ++ build k (λ i. f (i + n))
  build_split zero k f =
      let z : 0 + k ≡ k = omega arith in
      ap (λ t. build t f) z ∙ build_ext k f (λ i. f (i + 0)) (λ i l. ap f (omega arith))
  build_split (suc n) k f =
      let s : suc n + k ≡ suc (n + k) = omega arith in
      ap (λ t. build t f) s
      ∙ ap (λ xs. f 0 ∷ xs)
          (build_split n k (λ i. f (i + 1))
            ∙ ap (λ xs. build n (λ i. f (i + 1)) ++ xs)
                (build_ext k (λ i. f (i + n + 1)) (λ i. f (i + suc n)) (λ i l. ap f (omega arith))))

  -- The values before place `n` are those of `g`, and the `k` from there on those of `h`.
  pub build_parts :
      (m n k : ℕ) (f g h : ℕ → A)
      → m ≡ n + k
      → ((i : ℕ) → i < n → f i ≡ g i)
      → ((i : ℕ) → i < k → f (i + n) ≡ h i)
      → build m f ≡ build n g ++ build k h
  build_parts m n k f g h e p q =
      ap (λ t. build t f) e
      ∙ build_split n k f
      ∙ ap₂ (λ xs ys. xs ++ ys) (build_ext n f g p) (build_ext k (λ i. f (i + n)) h q)

  abbrev pub contents : Vector A → List A
  contents v = build v.sz v.block.items

  -- The capacity is the block's room, and the objects fit into it.
  pub record IsVector (v : Vector A) : Type 0 where
    pub room : v.block.room ≡ v.cap
    pub fits : v.sz ≤ v.cap

  -- A vector of the same objects, with room for one more.
  pub record Grown (v v' : Vector A) : Type ℓ where
    pub vector : IsVector v'
    pub same_size : v'.sz ≡ v.sz
    pub more : v.sz < v'.cap
    pub same : (j : ℕ) → j < v.sz → v'.block.items j ≡ v.block.items j

  -- A full vector for whose next capacity the heap has no memory.
  pub record GrowFails (finds : ℕ → Bool) (v : Vector A) : Type 0 where
    pub full : v.sz ≡ v.cap
    pub missing : finds (next_cap v) ≡ false

  module _ (blank : A) (finds : ℕ → Bool) where
    reserve-Grown :
        (n : ℕ) (v : Vector A)
        → IsVector v
        → v.cap < n
        → finds n ≡ true
        → (v' : Vector A) × (reserve blank finds n v ≡ done v') × Grown v v'
    unfolding reserve new_array
    reserve-Grown n v w h found =
        let (b, e, r) =
          copy_items-IsFilled v.sz 0 v.block (new_block blank n) (omega (arith, w.room, w.fits))
            (omega (arith, w.fits)) in
        (
          record v { block = b; cap = n },
          rw (lt→ltb v.cap n h, found, e) refl,
          record {
            vector = record { room = r.same_room; fits = omega (arith, w.fits) };
            same_size = refl;
            more = omega (arith, w.fits);
            same = λ j l. r.inside j (omega arith) (omega arith);
          },
        )

    pub reserve-panics :
        (n : ℕ) (v : Vector A) → v.cap < n → finds n ≡ false → reserve blank finds n v ≡ panics
    unfolding reserve new_array
    reserve-panics n v h missing = rw (lt→ltb v.cap n h, missing) refl

    pub grow-cases :
        (v : Vector A)
        → IsVector v
        → v.cap < 2 ^ 63
        → (GrowFails finds v × (grow blank finds v ≡ panics))
          ⊎ ((v' : Vector A) × (grow blank finds v ≡ done v') × Grown v v')
    unfolding grow
    grow-cases v w h = elim (ℕ_discrete v.sz v.cap) [
      | no q ↦ inr (
        v,
        rw (ne→== v.sz v.cap q) refl,
        record {
          vector = w;
          same_size = refl;
          more = omega (arith, w.fits, q);
          same = λ j l. refl;
        },
      )
      | yes q ↦
          let larger : v.cap < next_cap v = ground (arith, h) in
          elim (found-cases (finds (next_cap v))) [
            | inl found ↦
                let (v', e, g) = reserve-Grown (next_cap v) v w larger found in
                inr (v', rw ((==_iff v.sz v.cap).1 q) e, g)
            | inr missing ↦ inl (
              record { full = q; missing = missing },
              rw ((==_iff v.sz v.cap).1 q) (reserve-panics (next_cap v) v larger missing),
            )
          ]
    ]

    -- `push_back` on a vector whose block has room for its capacity, below 2 ^ 63, panics where the
    -- vector is full and the heap has no memory for the next capacity; else it succeeds and leaves such
    -- a vector with the object behind those that it had.
    pub push_back_lem :
        (x : A) (v : Vector A)
        → IsVector v
        → v.cap < 2 ^ 63
        → (GrowFails finds v × (push_back blank finds x v ≡ panics))
          ⊎ ((v' : Vector A) × (push_back blank finds x v ≡ done v')
              × IsVector v'
              × (contents v' ≡ contents v ++ (x ∷ [])))
    unfolding push_back
    push_back_lem x v w h = elim (grow-cases v w h) [
      | inl (f, e) ↦ inl (f, rw e refl)
      | inr (u, e, g) ↦
          let b = placed u.block u.sz x in
          let v' : Vector A = record u { block = b; sz = add64 u.sz 1 } in
          inr (
            v',
            rw (e, put_inside u.block u.sz x (omega (arith, g.vector.room, g.more, g.same_size)))
                refl,
            record { room = g.vector.room; fits = omega (arith, g.more, g.same_size, w.fits) },
            build_parts (add64 u.sz 1) v.sz 1 b.items v.block.items (λ i. x)
                (omega (arith, g.same_size, g.more, w.fits))
                (λ j l. placed_other u.block u.sz j x (omega (arith, g.same_size)) ∙ g.same j l)
                (λ j l. placed_here u.block u.sz (j + v.sz) x (omega (arith, g.same_size))),
          )
    ]

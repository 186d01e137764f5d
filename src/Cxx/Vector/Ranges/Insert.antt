-- ===== src/Cxx/Vector/Ranges/Insert.antt =====
-- Inserting a range into a vector of kernel/include/libs/libc++/vector.
use ice.Prelude.{
  Bool, true, false, inl, inr, ◌⊎◌, ℕ, ◌+◌, ◌^◌, ◌≤◌, ◌<◌, ◌≡◌, refl, arith, lt→ltb, le→ltb,
}
use ice.Cxx.Vector.{done}
use native.Mathlib.Decide.{dec_lt}
use ice.Utils.Math.{add64}
use ice.Cxx.Vector.{Vector, reserve, new_block, new_array, panics}
use ice.Cxx.Vector.Loops.{copy_items-IsFilled}
use ice.Cxx.Vector.Contents.{IsVector, found-cases, reserve-panics}
use ice.Cxx.Vector.Ranges.{range_cap, grow_by}

module _ {ℓ} {A : Type ℓ} where
  -- A vector of the same objects with room for a number of them.
  pub record Room (least : ℕ) (v v' : Vector A) : Type ℓ where
    pub vector : IsVector v'
    pub same_size : v'.sz ≡ v.sz
    pub enough : least ≤ v'.cap
    pub bound : v'.cap < 2 ^ 64
    pub same : (j : ℕ) → j < v.sz → v'.block.items j ≡ v.block.items j

  -- A vector without room for `n` more, and the heap has no memory for the capacity that it needs.
  pub record RangeFails (finds : ℕ → Bool) (n : ℕ) (v : Vector A) : Type 0 where
    pub more : v.cap < v.sz + n
    pub missing : finds (range_cap n v) ≡ false

  module _ (blank : A) (finds : ℕ → Bool) (v : Vector A) (w : IsVector v) where
    pub reserve-Room :
        (n : ℕ)
        → v.cap < n
        → n < 2 ^ 64
        → finds n ≡ true
        → (v' : Vector A) × (reserve blank finds n v ≡ done v') × Room n v v'
    unfolding reserve new_array
    reserve-Room n h b found =
        let (c, e, r) =
          copy_items-IsFilled v.sz 0 v.block (new_block blank n) (omega (arith, w.room, w.fits))
            (omega (arith, w.fits)) in
        (
          record v { block = c; cap = n },
          rw (lt→ltb v.cap n h, found, e) refl,
          record {
            vector = record { room = r.same_room; fits = omega (arith, w.fits) };
            same_size = refl;
            enough = omega arith;
            bound = b;
            same = λ j l. r.inside j (omega arith) (omega arith);
          },
        )

    pub same-Room : (n : ℕ) → n ≤ v.cap → v.cap < 2 ^ 64 → Room n v v
    same-Room n h b = record {
      vector = w;
      same_size = refl;
      enough = h;
      bound = b;
      same = λ j l. refl;
    }

    Room-less : (n k : ℕ) (u : Vector A) → n ≤ k → Room k v u → Room n v u
    Room-less n k u h r = record {
      vector = r.vector;
      same_size = r.same_size;
      enough = omega (arith, r.enough, h);
      bound = r.bound;
      same = r.same;
    }

    pub grow_by-cases :
        (n : ℕ)
        → v.cap < 2 ^ 63
        → v.sz + n < 2 ^ 64
        → (RangeFails finds n v × (grow_by blank finds n v ≡ panics))
          ⊎ ((v' : Vector A) × (grow_by blank finds n v ≡ done v') × Room (v.sz + n) v v')
    unfolding grow_by
    grow_by-cases n h g =
        let least : add64 v.sz n ≡ v.sz + n = omega arith in
        let small : range_cap n v < 2 ^ 64 = ground (arith, h, g) in
        let large : v.sz + n ≤ range_cap n v = ground (arith, h, g) in
        elim (dec_lt v.cap (v.sz + n)) [
          | no q ↦ inr (
            v,
            rw (le→ltb v.cap (add64 v.sz n) (omega (arith, q, least))) refl,
            same-Room (v.sz + n) (omega (arith, q)) (omega (arith, h)),
          )
          | yes q ↦
              let grows = lt→ltb v.cap (add64 v.sz n) (omega (arith, q, least)) in
              let larger : v.cap < range_cap n v = omega (arith, q, large) in
              elim (found-cases (finds (range_cap n v))) [
                | inl found ↦
                    let (u, e, r) = reserve-Room (range_cap n v) larger small found in
                    inr (u, rw grows e, Room-less (v.sz + n) (range_cap n v) u large r)
                | inr missing ↦ inl (
                  record { more = q; missing = missing },
                  rw grows (reserve-panics blank finds (range_cap n v) v larger missing),
                )
              ]
        ]

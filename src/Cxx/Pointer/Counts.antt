-- ===== src/Cxx/Pointer/Counts.antt =====
-- How many of the variables of kernel/include/libs/libc++/memory's pointers belong to a block.
use ice.Prelude.{
  ℕ, zero, suc, ◌+◌, ◌≤◌, ◌<◌, ◌≡◌, ◌≢◌, refl, arith, ◌==◌, if◌then◌else◌, ==_iff, ne→==, ap,
}
use native.Mathlib.Decide.{ℕ_discrete}
use ice.Cxx.Pointer.{Pointer, put}

abbrev pub hit : Pointer → ℕ → ℕ
hit p c = if p.ctrl == c then 1 else 0

-- The first `n` variables.
unfoldable pub count : ℕ → (ℕ → Pointer) → ℕ → ℕ
count zero f c = 0
count (suc n) f c = hit (f n) c + count n f c

pub hit_null : (p : Pointer) (c : ℕ) → c ≢ 0 → p.ctrl ≡ 0 → hit p c ≡ 0
hit_null p c h e = ground (arith, h, e)

count-put-past :
    (n : ℕ) (f : ℕ → Pointer) (d : ℕ) (p : Pointer) (c : ℕ)
    → n ≤ d
    → count n (put f d p) c ≡ count n f c
unfolding count
count-put-past zero f d p c h = refl
count-put-past (suc n) f d p c h =
    rw (ne→== n d (omega arith), count-put-past n f d p c (omega arith)) refl

-- The variable `d` goes from its block to that of `p`.
pub count-put :
    (n : ℕ) (f : ℕ → Pointer) (d : ℕ) (p : Pointer) (c : ℕ)
    → d < n
    → count n (put f d p) c + hit (f d) c ≡ count n f c + hit p c
unfolding count
count-put zero f d p c h = absurd (omega arith)
count-put (suc n) f d p c h = elim (ℕ_discrete n d) [
  | yes q ↦
      rw ((==_iff n d).1 q, count-put-past n f d p c (omega arith), ap (λ t. hit (f t) c) q)
        (omega arith)
  | no q ↦ let r = count-put n f d p c (omega arith) in rw (ne→== n d q) (omega (arith, r))
]

pub hit≤count : (n : ℕ) (f : ℕ → Pointer) (e c : ℕ) → e < n → hit (f e) c ≤ count n f c
unfolding count
hit≤count zero f e c h = absurd (omega arith)
hit≤count (suc n) f e c h = elim (ℕ_discrete n e) [
  | yes q ↦ rw (ap (λ t. hit (f t) c) q) (omega arith)
  | no q ↦ let r = hit≤count n f e c (omega arith) in omega (arith, r)
]

pub count≤ : (n : ℕ) (f : ℕ → Pointer) (c : ℕ) → count n f c ≤ n
unfolding count
count≤ zero f c = omega arith
count≤ (suc n) f c = let r = count≤ n f c in ground (arith, r)

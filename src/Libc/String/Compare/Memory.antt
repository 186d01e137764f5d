-- ===== src/Libc/String/Compare/Memory.antt =====
-- `memcmp` and `memchr` of kernel/libs/libc/string.cpp.
use ice.Prelude.{
  ℕ, zero, suc, ◌+◌, ◌≤◌, ◌<◌, ◌≡◌, ◌≢◌, ◌↔◌, refl, arith, Mem, ==_iff, ne→==, if◌then◌else◌, pos,
  negsuc, ltb,
}
use native.Mathlib.Nat.{add-zero}
use native.Mathlib.Decide.{ℕ_discrete}
use ice.Libc.String.{memcmp, memcmp_loop}

-- The first place from `i` on where the blocks differ, if there is one.
memcmp_loop_iff :
    (left i : ℕ) (m : Mem) (p q : ℕ)
    → (memcmp_loop left m p q i ≡ pos 0) ↔ ((k : ℕ) → i ≤ k → k < i + left → m (p + k) ≡ m (q + k))
unfolding memcmp_loop
memcmp_loop_iff zero i m p q = (λ e k lo hi. absurd (omega arith), λ h. refl)
memcmp_loop_iff (suc left) i m p q = elim (ℕ_discrete (m (p + i)) (m (q + i))) [
  | yes e ↦
      let rest = memcmp_loop_iff left (i + 1) m p q in
      rw ((==_iff (m (p + i)) (m (q + i))).1 e) (
        λ z k lo hi. elim (ℕ_discrete i k) [
          | yes same ↦ rw (← same) e
          | no other ↦ rest.0 z k (omega arith) (omega arith)
        ],
        λ h. rest.1 (λ k lo hi. h k (omega arith) (omega arith)),
      )
  | no d ↦ (λ z. absurd (ground arith), λ h. absurd (d (h i (omega arith) (omega arith))))
]

-- `memcmp` gives 0 exactly when the two blocks of `len` bytes are equal.
pub memcmp_iff :
    (m : Mem) (ptr1 ptr2 len : ℕ)
    → (memcmp m ptr1 ptr2 len ≡ pos 0) ↔ ((k : ℕ) → k < len → m (ptr1 + k) ≡ m (ptr2 + k))
unfolding memcmp
memcmp_iff m p q len =
    let (there, back) = memcmp_loop_iff len 0 m p q in
    (λ e k l. there e k (omega arith) (omega arith), λ h. back (λ k lo hi. h k (omega arith)))

memcmp_loop_sign :
    (k left i : ℕ) (m : Mem) (p q : ℕ)
    → ((j : ℕ) → i ≤ j → j < i + k → m (p + j) ≡ m (q + j))
    → m (p + (i + k)) ≢ m (q + (i + k))
    → k < left
    → memcmp_loop left m p q i ≡ (if ltb (m (p + (i + k))) (m (q + 2)) then negsuc 0 else pos 1)
unfolding memcmp_loop
memcmp_loop_sign k zero i m p q same d h = absurd (omega arith)
memcmp_loop_sign zero (suc left) i m p q same d h =
    rw (ne→== (m (p + i)) (m (q + i)) (rw add-zero at d), add-zero i)
memcmp_loop_sign (suc k) (suc left) i m p q same d h =
    let e : i + suc k ≡ i + 1 + k = omega arith in
    rw ((==_iff (m (p + i)) (m (q + i))).1 (same i (omega arith) (omega arith)), e)
      (memcmp_loop_sign k left (i + 1) m p q (λ j lo hi. same j (omega arith) (omega arith))
        (rw e at d) (omega arith))

-- If the blocks agree before the place `k` and differ there, the sign of `memcmp` comes from the
-- first block's byte at `k` and the second block's byte at 2, whatever `k` is.
pub memcmp_sign :
    (m : Mem) (ptr1 ptr2 len k : ℕ)
    → k < len
    → ((j : ℕ) → j < k → m (ptr1 + j) ≡ m (ptr2 + j))
    → m (ptr1 + k) ≢ m (ptr2 + k)
    → memcmp m ptr1 ptr2 len ≡ (if ltb (m (ptr1 + k)) (m (ptr2 + 2)) then negsuc 0 else pos 1)
unfolding memcmp
memcmp_sign m p q len k h same d =
    let z : 0 + k ≡ k = omega arith in
    rw z at (memcmp_loop_sign k len 0 m p q (λ j lo hi. same j (omega arith)) (rw z d) h)

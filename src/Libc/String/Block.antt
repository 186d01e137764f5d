-- ===== src/Libc/String/Block.antt =====
-- `memset` and `memcpy` of kernel/libs/libc/string.cpp.
use ice.Prelude.{
  ℕ, zero, suc, ◌+◌, ◌-◌, ◌%◌, ◌^◌, ◌≤◌, ◌<◌, ◌≡◌, ◌⊎◌, inl, refl, ap, ◌∙◌, arith, Mem, store,
  store_self, store-ne,
}
use mathlib.Core.Path.{subst}
use native.Mathlib.Nat.{add-zero}
use native.Mathlib.Decide.{ℕ_discrete}
use ice.Libc.String.{memset_loop, memset, memcpy_loop, memcpy}

-- The bytes in `[lo, hi)` of the memory after are given by `f`, and the others are as before.
pub record IsWritten (lo hi : ℕ) (f : ℕ → ℕ) (before after : Mem) : Type 0 where
  pub inside : (a : ℕ) → lo ≤ a → a < hi → after a ≡ f a
  pub outside : (a : ℕ) → (a < lo) ⊎ (hi ≤ a) → after a ≡ before a

memset_loop-IsWritten :
    (left : ℕ) (m : Mem) (p ch i : ℕ)
    → IsWritten (p + i) (p + i + left) (λ a. ch % 2 ^ 8) m (memset_loop left m p ch i)
unfolding memset_loop
memset_loop-IsWritten zero m p ch i = record {
  inside = λ a lo hi. absurd (omega arith);
  outside = λ a h. refl;
}
memset_loop-IsWritten (suc left) m p ch i =
    let m' = store m (p + i) (ch % 2 ^ 8) in
    let rest = memset_loop-IsWritten left m' p ch (i + 1) in
    record {
      inside = λ a lo hi. ground (
        arith,
        rest.inside a,
        rest.outside a,
        store_self m (p + i) (ch % 2 ^ 8),
        store-ne m (p + i) (ch % 2 ^ 8) a,
      );
      outside = λ a h. ground (arith, rest.outside a, store-ne m (p + i) (ch % 2 ^ 8) a);
    }

-- `memset` writes the low byte of `ch` to each of the `len` bytes from `dest` on, and changes no
-- other byte.
pub memset-IsWritten :
    (m : Mem) (dest ch len : ℕ)
    → IsWritten dest (dest + len) (λ a. ch % 2 ^ 8) m (memset m dest ch len)
unfolding memset
memset-IsWritten m dest ch len =
    subst (λ p. IsWritten p (p + len) (λ a. ch % 2 ^ 8) m (memset_loop len m dest ch 0))
      (add-zero dest) (memset_loop-IsWritten len m dest ch 0)

-- The loop reads each byte before it is overwritten, if the target lies below the source or past it.
memcpy_loop-IsWritten :
    (left : ℕ) (m : Mem) (dest src i : ℕ)
    → (dest ≤ src) ⊎ (src + i + left ≤ dest)
    → IsWritten
        (dest + i)
        (dest + i + left)
        (λ a. m (src + (a - dest)))
        m
        (memcpy_loop left m dest src i)
unfolding memcpy_loop
memcpy_loop-IsWritten zero m dest src i apart = record {
  inside = λ a lo hi. absurd (omega arith);
  outside = λ a h. refl;
}
memcpy_loop-IsWritten (suc left) m dest src i apart =
    let m' = store m (dest + i) (m (src + i)) in
    let rest = memcpy_loop-IsWritten left m' dest src (i + 1) (omega arith) in
    record {
      inside = λ a lo hi. elim (ℕ_discrete a (dest + i)) [
        | yes e ↦
            rest.outside a (inl (omega arith))
            ∙ ap m' e
            ∙ store_self m (dest + i) (m (src + i))
            ∙ ap m (omega arith)
        | no ne ↦
            rest.inside a (omega arith) (omega arith)
            ∙ store-ne m (dest + i) (m (src + i)) (src + (a - dest)) (omega arith)
      ];
      outside = λ a h. ground (arith, rest.outside a, store-ne m (dest + i) (m (src + i)) a);
    }

pub copied :
    (m : Mem) (dest src len : ℕ)
    → (dest ≤ src) ⊎ (src + len ≤ dest)
    → ((k : ℕ) → k < len → memcpy_loop len m dest src 0 (dest + k) ≡ m (src + k))
      × ((a : ℕ) → (a < dest) ⊎ (dest + len ≤ a) → memcpy_loop len m dest src 0 a ≡ m a)
copied m dest src len apart =
    let w = memcpy_loop-IsWritten len m dest src 0 (omega arith) in
    (
      λ k h. w.inside (dest + k) (omega arith) (omega arith) ∙ ap (λ t. m (src + t)) (omega arith),
      λ a h. w.outside a (omega arith),
    )

-- `memcpy` between regions that do not overlap copies the `len` bytes from `src` on to `dest`, and
-- changes no other byte.
pub memcpy_lem :
    (m : Mem) (dest src len : ℕ)
    → (dest + len ≤ src) ⊎ (src + len ≤ dest)
    → ((k : ℕ) → k < len → memcpy m dest src len (dest + k) ≡ m (src + k))
      × ((a : ℕ) → (a < dest) ⊎ (dest + len ≤ a) → memcpy m dest src len a ≡ m a)
unfolding memcpy
memcpy_lem m dest src len apart = copied m dest src len (omega arith)

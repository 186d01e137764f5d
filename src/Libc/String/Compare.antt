-- ===== src/Libc/String/Compare.antt =====
-- The string comparisons of kernel/libs/libc/string.cpp.
pub mod Memory
use ice.Prelude.{
  ℕ, zero, suc, ◌+◌, ◌-◌, Bool-cases, ◌≤◌, ◌<◌, ◌^◌, ◌≡◌, ◌≢◌, ◌⊎◌, ◌↔◌, inl, inr, refl, sym, ap,
  ◌∙◌, arith, some, Mem, IsBytes, ◌==◌, ==_iff, ne→==, min, if◌then◌else◌, true, false, ℤ, pos,
  negsuc,
}
use mathlib.Core.Path.{subst}
use native.Mathlib.Nat.{add-zero}
use native.Mathlib.Decide.{dec_lt, ℕ_discrete}
use ice.Libc.String.{strcmp, strncmp, same_char, char_diff}
use ice.Libc.String.Length.{IsString}
use ice.Utils.Math.{sub64}

-- Distinct bytes differ as signed characters too.
char_diff-zero : (m : Mem) (a b : ℕ) → m a < 256 → m b < 256 → char_diff m a b ≡ pos 0 → m a ≡ m b
char_diff-zero m a b ha hb h = ground arith

char_diff-same : (m : Mem) (a b : ℕ) → m a ≡ m b → char_diff m a b ≡ pos 0
char_diff-same m a b h = ground arith

same_char-eq : (m : Mem) (a b : ℕ) → same_char m a b ≡ true → m a ≡ m b
unfolding same_char
same_char-eq m a b h = ground arith

same_char-chars : (m : Mem) (a b : ℕ) → same_char m a b ≡ true → (m a ≢ 0) × (m b ≢ 0)
unfolding same_char
same_char-chars m a b h = ground arith

same_char-nul : (m : Mem) (a b : ℕ) → m a ≡ 0 → same_char m a b ≡ false
unfolding same_char
same_char-nul m a b h = ground arith

same_char-ends : (m : Mem) (a b : ℕ) → m a ≡ m b → same_char m a b ≡ false → m a ≡ 0
unfolding same_char
same_char-ends m a b e h = ground arith

-- The characters at the first `k` places agree, and none is a NUL.
abbrev pub SamePrefix : Mem → ℕ → ℕ → ℕ → Type 0
SamePrefix m s t k = (i : ℕ) → i < k → same_char m (s + i) (t + i) ≡ true

module _ (m : Mem) (s t : ℕ) where
  SamePrefix-tail : (k : ℕ) → SamePrefix m s t (suc k) → SamePrefix m (s + 1) (t + 1) k
  SamePrefix-tail k p i h =
      let es : s + 1 + i ≡ s + (i + 1) = omega arith in
      let et : t + 1 + i ≡ t + (i + 1) = omega arith in rw (es, et) (p (i + 1) (omega arith))

  same_char-zero : same_char m (s + 0) (t + 0) ≡ same_char m s t
  same_char-zero = rw (add-zero s, add-zero t)

  SamePrefix-head : (k : ℕ) → SamePrefix m s t (suc k) → same_char m s t ≡ true
  SamePrefix-head k p = sym same_char-zero ∙ p 0 (omega arith)

-- `strcmp` stops at the first place where the characters differ or end.
strcmp_stop :
    (k f : ℕ) (m : Mem) (s t : ℕ)
    → SamePrefix m s t k
    → same_char m (s + k) (t + k) ≡ false
    → k < f
    → strcmp f m s t ≡ some (char_diff m (s + k) (t + k))
unfolding strcmp
strcmp_stop k zero m s t p q h = absurd (omega arith)
strcmp_stop zero (suc f) m s t p q h = rw (sym (same_char-zero m s t) ∙ q, add-zero s, add-zero t)
strcmp_stop (suc k) (suc f) m s t p q h =
    let es : s + suc k ≡ s + 1 + k = omega arith in
    let et : t + suc k ≡ t + 1 + k = omega arith in
    rw (SamePrefix-head m s t k p, es, et)
      (strcmp_stop k f m (s + 1) (t + 1) (SamePrefix-tail m s t k p) (rw (es, et) at q)
        (omega arith))

-- If the characters agree at `k` places, within the count, and then the count ends or the characters
-- differ or end, `strncmp` gives 0 in the first case and their difference in the second.
pub strncmp_lem :
    (k f : ℕ) (m : Mem) (s t len : ℕ)
    → SamePrefix m s t k
    → (k ≡ len) ⊎ ((k < len) × (same_char m (s + k) (t + k) ≡ false))
    → len < 2 ^ 64
    → k < f
    → strncmp f m s t len ≡ some (if k == len then pos 0 else char_diff m (s + k) (t + k))
unfolding strncmp
strncmp_lem k zero m s t len p q w h = absurd (omega arith)
strncmp_lem zero (suc f) m s t len p q w h =
    rw (add-zero s, add-zero t)
      (ground (arith, same_char-eq m s t, char_diff-same m s t, same_char-zero m s t))
strncmp_lem (suc k) (suc f) m s t len p q w h =
    let es : s + suc k ≡ s + 1 + k = omega arith in
    let et : t + suc k ≡ t + 1 + k = omega arith in
    let more : len ≢ 0 = omega arith in
    let l : sub64 len 1 ≡ len - 1 = omega arith in
    let last : (suc k == len) ≡ (k == len - 1) = ground arith in
    rw (SamePrefix-head m s t k p, ne→== len 0 more, es, et, l, last)
      (strncmp_lem k f m (s + 1) (t + 1) (len - 1) (SamePrefix-tail m s t k p) (shift es et q)
        (omega arith) (omega arith))
  where
    shift :
        s + suc k ≡ s + 1 + k
        → t + suc k ≡ t + 1 + k
        → (suc k ≡ len) ⊎ ((suc k < len) × (same_char m (s + suc k) (t + suc k) ≡ false))
        → (k ≡ len - 1) ⊎ ((k < len - 1) × (same_char m (s + 1 + k) (t + 1 + k) ≡ false))
    shift es et (inl e) = inl (omega arith)
    shift es et (inr (l, d)) = inr (omega arith, rw (es, et) at d)

-- Two strings are equal: as long, and with the same characters.
abbrev pub SameString : Mem → ℕ → ℕ → ℕ → ℕ → Type 0
SameString m s a t b = (a ≡ b) × ((i : ℕ) → i < a → m (s + i) ≡ m (t + i))

-- Where the comparison of two strings stops, within both.
record Stop (m : Mem) (s a t b : ℕ) : Type 0 where
  place : ℕ
  before : SamePrefix m s t place
  stops : same_char m (s + place) (t + place) ≡ false
  within : (place ≤ a) × (place ≤ b)

find-Stop :
    (left k : ℕ) (m : Mem) (s a t b : ℕ)
    → IsString m s a
    → IsString m t b
    → SamePrefix m s t k
    → k + left ≡ a
    → k ≤ b
    → Stop m s a t b
find-Stop zero k m s a t b u v p e h = record {
  place = k;
  before = p;
  stops = same_char-nul m (s + k) (t + k) (ap (λ x. m (s + x)) (omega arith) ∙ u.ends);
  within = (omega arith, h);
}
find-Stop (suc left) k m s a t b u v p e h = elim (Bool-cases (same_char m (s + k) (t + k))) [
  | inr d ↦ record { place = k; before = p; stops = d; within = (omega arith, h) }
  | inl y ↦
      let inside : k ≢ b =
        λ z. (same_char-chars m (s + k) (t + k) y).1 (ap (λ x. m (t + x)) z ∙ v.ends) in
      find-Stop left (suc k) m s a t b u v (extend y) (omega arith) (omega arith)
]
  where
    extend : same_char m (s + k) (t + k) ≡ true → SamePrefix m s t (suc k)
    extend y i l = elim (dec_lt i k) [
      | yes q ↦ p i q
      | no q ↦ let z : i ≡ k = omega arith in rw z y
    ]

-- `strcmp` of two strings ends, and its result is 0 exactly when the strings are equal.
pub strcmp_lem :
    (fuel : ℕ) (m : Mem) (s a t b : ℕ)
    → IsBytes m
    → IsString m s a
    → IsString m t b
    → min a b < fuel
    → (r : ℤ) × (strcmp fuel m s t ≡ some r) × ((r ≡ pos 0) ↔ SameString m s a t b)
strcmp_lem fuel m s a t b bytes u v h = (
  char_diff m (s + p) (t + p),
  strcmp_stop p fuel m s t stop.before stop.stops (omega (arith, stop.within)),
  (forth, back),
)
  where
    stop : Stop m s a t b
    stop = find-Stop a 0 m s a t b u v (λ i l. absurd (omega arith)) (omega arith) (omega arith)

    p : ℕ
    p = stop.place

    forth : char_diff m (s + p) (t + p) ≡ pos 0 → SameString m s a t b
    forth z =
        let same = char_diff-zero m (s + p) (t + p) (bytes (s + p)) (bytes (t + p)) z in
        let nul = same_char-ends m (s + p) (t + p) same stop.stops in
        let pa : ¬ (p < a) = λ l. u.chars p l nul in
        let pb : ¬ (p < b) = λ l. v.chars p l (sym same ∙ nul) in
        (
          omega (arith, stop.within),
          λ i l. same_char-eq m (s + i) (t + i) (stop.before i (omega (arith, stop.within))),
        )

    back : SameString m s a t b → char_diff m (s + p) (t + p) ≡ pos 0
    back (e, same) = char_diff-same m (s + p) (t + p) (elim (dec_lt p a) [
      | yes l ↦ same p l
      | no l ↦
          let pa : p ≡ a = omega (arith, stop.within) in
          let pb : p ≡ b = omega (arith, stop.within) in
          ap (λ x. m (s + x)) pa ∙ u.ends ∙ sym v.ends ∙ ap (λ x. m (t + x)) (sym pb)
    ])

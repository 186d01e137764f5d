-- ===== src/Libc/String/Reverse.antt =====
-- `strrev` of kernel/libs/libc/string.cpp.
use ice.Prelude.{
  ℕ, zero, suc, ◌+◌, ◌*◌, ◌-◌, ◌^◌, ◌≤◌, ◌<◌, ◌≡◌, ◌≢◌, ◌⊎◌, refl, ap, ◌∙◌, arith, Option, some,
  none, Mem, store, store_self, store-ne, lt→ltb, le→ltb,
}
use native.Mathlib.Decide.{ℕ_discrete, dec_lt}
use ice.Utils.Math.{add64, sub64}
use ice.Libc.String.{strrev, strrev_loop}
use ice.Libc.String.Length.{IsString, strlen_lem}

-- The bytes at the places from `lo` to `hi`, the last included, stand in reverse; `lo` and `hi` add up
-- to `sum`.
record IsReversed (m after : Mem) (str sum lo hi : ℕ) : Type 0 where
  pub inside : (k : ℕ) → lo ≤ k → k ≤ hi → after (add64 str k) ≡ m (add64 str (sum - k))
  pub outside : (a : ℕ) → ((k : ℕ) → lo ≤ k → k ≤ hi → a ≢ add64 str k) → after a ≡ m a

abbrev swapped : Mem → ℕ → ℕ → ℕ → Mem
swapped m str i j = store (store m (add64 str i) (m (add64 str j))) (add64 str j) (m (add64 str i))

-- Different places below 2 ^ 64 have different addresses.
add64-ne : (str i j : ℕ) → i < 2 ^ 64 → j < 2 ^ 64 → i ≢ j → add64 str i ≢ add64 str j
add64-ne str i j h l n e = omega (arith, e, n)

-- The outer pair, and the bytes between.
step-IsReversed :
    (m after : Mem) (str i j : ℕ)
    → i < j
    → j < 2 ^ 64
    → IsReversed (swapped m str i j) after str (i + 1 + (j - 1)) (i + 1) (j - 1)
    → IsReversed m after str (i + j) i j
step-IsReversed m after str i j q w r = record {
  inside = λ k lo hi. elim (ℕ_discrete k i) [
    | yes e ↦
        ap (λ t. after (add64 str t)) e
        ∙ r.outside (add64 str i)
            (λ l lo hi. add64-ne str i l (omega arith) (omega arith) (omega arith))
        ∙ store-ne (store m (add64 str i) (m (add64 str j))) (add64 str j) (m (add64 str i))
            (add64 str i) (add64-ne str i j (omega arith) w (omega arith))
        ∙ store_self m (add64 str i) (m (add64 str j))
        ∙ ap (λ t. m (add64 str t)) (omega (arith, e))
    | no ne ↦ elim (ℕ_discrete k j) [
      | yes e ↦
          ap (λ t. after (add64 str t)) e
          ∙ r.outside (add64 str j) (λ l lo hi. add64-ne str j l w (omega arith) (omega arith))
          ∙ store_self (store m (add64 str i) (m (add64 str j))) (add64 str j) (m (add64 str i))
          ∙ ap (λ t. m (add64 str t)) (omega (arith, e))
      | no nf ↦
          r.inside k (omega arith) (omega arith)
          ∙ kept (add64 str (i + 1 + (j - 1) - k))
              (add64-ne str (i + 1 + (j - 1) - k) i (omega arith) (omega arith) (omega arith))
              (add64-ne str (i + 1 + (j - 1) - k) j (omega arith) w (omega arith))
          ∙ ap (λ t. m (add64 str t)) (omega arith)
    ]
  ];
  outside = λ a o.
      r.outside a (λ k lo hi. o k (omega arith) (omega arith))
      ∙ kept a (o i (omega arith) (omega arith)) (o j (omega arith) (omega arith));
}
  where
    kept : (a : ℕ) → a ≢ add64 str i → a ≢ add64 str j → swapped m str i j a ≡ m a
    kept a ni nj =
        store-ne (store m (add64 str i) (m (add64 str j))) (add64 str j) (m (add64 str i)) a nj
        ∙ store-ne m (add64 str i) (m (add64 str j)) a ni

strrev_loop-IsReversed :
    (f : ℕ) (m : Mem) (str i j : ℕ)
    → i ≤ j + 1
    → j < 2 ^ 64
    → j + 2 ≤ i + 2 * f
    → (m' : Mem) × (strrev_loop f m str i j ≡ some m') × IsReversed m m' str (i + j) i j
unfolding strrev_loop
strrev_loop-IsReversed zero m str i j h w l = absurd (omega arith)
strrev_loop-IsReversed (suc f) m str i j h w l = elim (dec_lt i j) [
  | no q ↦ (
    m,
    rw (le→ltb i j (omega arith)) refl,
    record { inside = λ k lo hi. ap (λ t. m (add64 str t)) (omega arith); outside = λ a o. refl },
  )
  | yes q ↦
      let j' : sub64 j 1 ≡ j - 1 = omega arith in
      let (m', e, r) =
        strrev_loop-IsReversed f (swapped m str i j) str (i + 1) (j - 1) (omega arith) (omega arith)
          (omega arith) in
      (
        m',
        rw (lt→ltb i j q) (ap (λ t. strrev_loop f (swapped m str i j) str (i + 1) t) j' ∙ e),
        step-IsReversed m m' str i j q w r,
      )
]

strrev-strrev_loop :
    (fuel : ℕ) (m : Mem) (str n : ℕ)
    → IsString m str n
    → n < fuel
    → strrev fuel m str ≡ strrev_loop fuel m str 0 (sub64 n 1)
unfolding strrev
strrev-strrev_loop fuel m str n s l =
    ap
      (λ (o : Option ℕ). elim o as (λ x. Option Mem) [
        | none ↦ none
        | some len ↦ strrev_loop fuel m str 0 (sub64 len 1)
      ])
      (strlen_lem fuel m str n s l)

-- `strrev` of a string of one character or more, which ends below 2 ^ 64, with fuel for n + 1 rounds
-- ends, puts the characters in reverse, and changes no other byte.
pub strrev_lem :
    (fuel : ℕ) (m : Mem) (str n : ℕ)
    → IsString m str n
    → 1 ≤ n
    → str + n < 2 ^ 64
    → n < fuel
    → (m' : Mem) × (strrev fuel m str ≡ some m')
      × ((k : ℕ) → k < n → m' (str + k) ≡ m (str + (n - 1 - k)))
      × ((a : ℕ) → (a < str) ⊎ (str + n ≤ a) → m' a ≡ m a)
strrev_lem fuel m str n s h w l =
    let last : sub64 n 1 ≡ n - 1 = omega arith in
    let (m', e, r) =
      strrev_loop-IsReversed fuel m str 0 (n - 1) (omega arith) (omega arith) (omega arith) in
    (
      m',
      strrev-strrev_loop fuel m str n s l ∙ ap (λ t. strrev_loop fuel m str 0 t) last ∙ e,
      λ k b.
          ap m' (omega (arith, w))
          ∙ r.inside k (omega arith) (omega arith)
          ∙ ap m (omega (arith, w)),
      λ a o. r.outside a (λ k lo hi q. omega (arith, w, q, o)),
    )

-- `strrev` of the empty string, with fuel for 2 ^ 63 + 1 rounds, ends, but the last place is 0 - 1 in
-- 64 bits: each byte of the address space, `k` places behind the string's address with wrap-around,
-- is swapped with the byte k + 1 places before that address.
pub strrev_empty :
    (fuel : ℕ) (m : Mem) (str : ℕ)
    → IsString m str 0
    → 2 ^ 63 < fuel
    → (m' : Mem) × (strrev fuel m str ≡ some m')
      × ((k : ℕ) → k < 2 ^ 64 → m' (add64 str k) ≡ m (sub64 str (k + 1)))
strrev_empty fuel m str s h =
    let last : sub64 0 1 ≡ 2 ^ 64 - 1 = omega arith in
    let (m', e, r) =
      strrev_loop-IsReversed fuel m str 0 (2 ^ 64 - 1) (omega arith) (omega arith) (omega arith) in
    (
      m',
      strrev-strrev_loop fuel m str 0 s (omega arith)
          ∙ ap (λ t. strrev_loop fuel m str 0 t) last
          ∙ e,
      λ k l. r.inside k (omega arith) (omega arith) ∙ ap m (omega (arith, l)),
    )

-- ===== src/Utils/Bitmap/Laws.antt =====
-- What `bitmap_t::get` sees of `bitmap_t::set`, kernel/utils/bitmap.cpp.
use ice.Prelude.{
  ℕ, ◌+◌, ◌/◌, ◌%◌, ◌^◌, ◌≤◌, ◌<◌, ◌≡◌, ◌≢◌, sym, ap, ◌∙◌, arith, bit, bit-le_one, bit_and, bit_or,
  bit_not, bit-bit_and, bit-bit_or, bit-bit_not, bit-zero, bit-mod, bit-pow, bit_and-pow, pow_mono,
  Bool, true, false, not, ◌==◌, if◌then◌else◌, Mem, store_self, store-ne,
}
use native.Mathlib.Nat.{one-le-pow}
use native.Mathlib.Decide.{ℕ_discrete}
use ice.Utils.Bitmap.{Bitmap, get, set}

-- `x & (1 << k)` tests the digit k.
test_digit : (x k : ℕ) → not (bit_and x (2 ^ k) == 0) ≡ (bit x k == 1)
test_digit x k = ground (arith, bit_and-pow x k, bit-le_one x k, one-le-pow k 2)

module _ (x k j : ℕ) (hk : k < 8) (hj : j < 8) where
  digit-set : bit (bit_or x (2 ^ k) % 2 ^ 8) j ≡ (if k == j then 1 else bit x j)
  digit-set =
      bit-mod 8 (bit_or x (2 ^ k)) j hj
      ∙ bit-bit_or x (2 ^ k) j
      ∙ ground (arith, bit-pow k j, bit-le_one x j)

  digit-clear : bit (bit_and x (bit_not 32 (2 ^ k)) % 2 ^ 8) j ≡ (if k == j then 0 else bit x j)
  digit-clear =
      bit-mod 8 (bit_and x (bit_not 32 (2 ^ k))) j hj
      ∙ bit-bit_and x (bit_not 32 (2 ^ k)) j
      ∙ ground (
        arith,
        bit-pow k j,
        bit-le_one x j,
        bit-bit_not 32 (2 ^ k) j (pow_mono k 32 (omega arith)),
      )

-- `set` writes one byte of the buffer.
pub set_outside :
    (m : Mem) (b : Bitmap) (i : ℕ) (v : Bool) (a : ℕ)
    → i < 2048
    → a ≢ b.buffer + i / 8
    → set m b i v a ≡ m a
unfolding set
set_outside m b i true a h ne = store-ne m _ _ a (λ e. ne (omega arith))
set_outside m b i false a h ne = store-ne m _ _ a (λ e. ne (omega arith))

get-bit :
    (m : Mem) (b : Bitmap) (i : ℕ) → get m b i ≡ (bit (m (b.buffer + i / 8 % 256)) (i % 8) == 1)
unfolding get
get-bit m b i = test_digit (m (b.buffer + i / 8 % 256)) (i % 8)

-- The byte that holds the index's digit, before and after.
written : Mem → Bitmap → ℕ → Bool → ℕ
written m b i v = set m b i v (b.buffer + i / 8 % 2 ^ 16)

digit-written :
    (m : Mem) (b : Bitmap) (i j : ℕ) (v : Bool)
    → i < 2 ^ 19
    → bit (written m b i v) (j % 8)
      ≡ (if i % 8 == j % 8 then (if v then 1 else 0) else bit (m (b.buffer + i / 8)) (j % 8))
unfolding set written
digit-written m b i j true h =
    let e : i / 8 % 2 ^ 16 ≡ i / 8 = omega arith in
    rw (e, store_self) (digit-set _ (i % 8) (j % 8) (omega arith) (omega arith))
digit-written m b i j false h =
    let e : i / 8 % 2 ^ 16 ≡ i / 8 = omega arith in
    rw (e, store_self) (digit-clear _ (i % 8) (j % 8) (omega arith) (omega arith))

-- For two indices below 2048, `get` after `set` gives the value that was set at its index, and
-- what it gave before at every other.
pub get-set :
    (m : Mem) (b : Bitmap) (i j : ℕ) (v : Bool)
    → i < 2048
    → j < 2048
    → get (set m b i v) b j ≡ (if i == j then v else get m b j)
unfolding written
get-set m b i j v hi hj =
    let ei : i / 8 % 2 ^ 16 ≡ i / 8 = omega arith in
    let ej : j / 8 % 256 ≡ j / 8 = omega arith in
    elim (ℕ_discrete (i / 8) (j / 8)) [
      | yes same ↦ ground (
        arith,
        get-bit m b j,
        get-bit (set m b i v) b j,
        digit-written m b i j v (omega arith),
        ap (λ t. set m b i v (b.buffer + t)) ei,
        ap (λ t. set m b i v (b.buffer + t)) ej,
        ap (λ t. set m b i v (b.buffer + t)) same,
        ap (λ t. m (b.buffer + t)) ej,
        ap (λ t. m (b.buffer + t)) same,
      )
      | no other ↦ ground (
        arith,
        get-bit m b j,
        get-bit (set m b i v) b j,
        set_outside m b i v (b.buffer + j / 8 % 256) hi (omega arith),
      )
    ]

-- `get` cuts the byte's number to 8 bits, so it reads every index `j` as its remainder by 2048, where
-- `set` does not: the index i + 2048 for i < 2048 reads as free after it was set, if i is free.
pub get_wraps :
    (m : Mem) (b : Bitmap) (i j : ℕ)
    → i < 2048
    → get m b i ≡ false
    → (get m b j ≡ get m b (j % 2048)) × (get (set m b (i + 2048) true) b (i + 2048) ≡ false)
get_wraps m b i j h free = (
  wrapped,
  get-bit (set m b (i + 2048) true) b (i + 2048)
      ∙ rw (index, byte, set_high) (sym (get-bit m b i) ∙ free),
)
  where
    digit : j % 2048 % 8 ≡ j % 8
    digit = omega arith

    place : j % 2048 / 8 % 256 ≡ j / 8 % 256
    place = omega arith

    wrapped : get m b j ≡ get m b (j % 2048)
    wrapped = get-bit m b j ∙ rw (← place, ← digit) (sym (get-bit m b (j % 2048)))

    index : (i + 2048) % 8 ≡ i % 8
    index = omega arith

    byte : (i + 2048) / 8 % 256 ≡ i / 8 % 256
    byte = omega arith

    set_high : set m b (i + 2048) true (b.buffer + i / 8 % 256) ≡ m (b.buffer + i / 8 % 256)
    set_high = unfold set in store-ne m _ _ _ (omega arith)

-- `get` reads the first 256 bytes of the buffer only.
pub get-frame :
    (m m' : Mem) (b : Bitmap) (j : ℕ)
    → ((a : ℕ) → b.buffer ≤ a → a < b.buffer + 256 → m' a ≡ m a)
    → get m' b j ≡ get m b j
get-frame m m' b j same =
    get-bit m' b j
    ∙ ap (λ t. bit t (j % 8) == 1) (same (b.buffer + j / 8 % 256) (omega arith) (omega arith))
    ∙ sym (get-bit m b j)

ones : (k : ℕ) → k < 8 → bit 255 k ≡ 1
ones k h = bit-bit_not 8 0 k (omega arith) h ∙ omega (arith, bit-zero k)

-- A buffer full of ones reads as set everywhere.
pub get_ones :
    (m : Mem) (b : Bitmap) (j : ℕ)
    → ((a : ℕ) → b.buffer ≤ a → a < b.buffer + 256 → m a ≡ 255)
    → get m b j ≡ true
get_ones m b j h =
    get-bit m b j
    ∙ ground
        (arith, h (b.buffer + j / 8 % 256) (omega arith) (omega arith), ones (j % 8) (omega arith))

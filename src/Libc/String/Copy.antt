-- ===== src/Libc/String/Copy.antt =====
-- The string copies of kernel/libs/libc/string.cpp, by way of `memcpy`.
use ice.Prelude.{
  ℕ, zero, suc, ◌+◌, ◌-◌, ◌≤◌, ◌<◌, ◌≡◌, ◌⊎◌, ◌≢◌, ◌^◌, refl, sym, ap, ◌∙◌, arith, some, Mem, store,
  store_self, store-ne, ne→==, min,
}
use mathlib.Core.Bool.{and-false}
use native.Mathlib.Nat.{add-zero}
use ice.Libc.String.{copy_string, copy_bounded, strcpy, strncpy, strcat, memcpy_loop}
use ice.Libc.String.Length.{IsString, strlen_lem}
use ice.Libc.String.Block.{copied}
use native.Mathlib.Decide.{dec_lt}
use ice.Utils.Math.{sub64}

-- The tail of a string, in a memory where a byte before it was overwritten.
IsString-tail :
    {m : Mem} {str n : ℕ} (a v : ℕ)
    → IsString m str (suc n)
    → (a ≤ str) ⊎ (str + suc n < a)
    → IsString (store m a v) (str + 1) n
IsString-tail {m} {str} {n} a v s apart = record {
  chars = λ k h e. s.chars (k + 1) (omega arith) (ap m (omega arith) ∙ moved k (omega arith) ∙ e);
  ends = sym (moved n (omega arith)) ∙ ap m (omega arith) ∙ s.ends;
}
  where
    moved : (k : ℕ) → k ≤ n → m (str + 1 + k) ≡ store m a v (str + 1 + k)
    moved k h = sym (store-ne m a v (str + 1 + k) (omega arith))

memcpy_loop-shift :
    (left : ℕ) (m : Mem) (dest src i : ℕ)
    → memcpy_loop left m (dest + 1) (src + 1) i ≡ memcpy_loop left m dest src (i + 1)
unfolding memcpy_loop
memcpy_loop-shift zero m dest src i = refl
memcpy_loop-shift (suc left) m dest src i =
    let ed : dest + 1 + i ≡ dest + (i + 1) = omega arith in
    let es : src + 1 + i ≡ src + (i + 1) = omega arith in
    rw (ed, es) (memcpy_loop-shift left _ dest src (i + 1))

-- What both loops leave: `n` bytes copied, and a NUL behind them.
abbrev pub terminated : Mem → ℕ → ℕ → ℕ → Mem
terminated m dest src n = store (memcpy_loop n m dest src 0) (dest + n) 0

terminated-suc :
    (m : Mem) (dest src n : ℕ)
    → terminated (store m dest (m src)) (dest + 1) (src + 1) n ≡ terminated m dest src (suc n)
unfolding memcpy_loop
terminated-suc m dest src n =
    let e : dest + 1 + n ≡ dest + suc n = omega arith in
    rw (memcpy_loop-shift n (store m dest (m src)) dest src 0, e, add-zero dest, add-zero src)

copy_string_lem :
    (n f : ℕ) (m : Mem) (dest src : ℕ)
    → IsString m src n
    → (dest ≤ src) ⊎ (src + n < dest)
    → n < f
    → copy_string f m dest src ≡ some (terminated m dest src n)
unfolding copy_string memcpy_loop
copy_string_lem n zero m dest src s apart h = absurd (omega arith)
copy_string_lem zero (suc f) m dest src s apart h =
    let e : m src ≡ 0 = ap m (sym (add-zero src)) ∙ s.ends in rw (e, add-zero dest)
copy_string_lem (suc n) (suc f) m dest src s apart h =
    let ne : m src ≢ 0 = λ e. s.chars 0 (omega arith) (ap m (add-zero src) ∙ e) in
    rw (ne→== (m src) 0 ne, ← terminated-suc m dest src n)
      (copy_string_lem n f (store m dest (m src)) (dest + 1) (src + 1)
        (IsString-tail dest (m src) s (omega arith)) (omega arith) (omega arith))

copy_bounded_lem :
    (n f : ℕ) (m : Mem) (dest src len : ℕ)
    → IsString m src n
    → (dest ≤ src) ⊎ (src + n < dest)
    → len < 2 ^ 64
    → min n len < f
    → copy_bounded f m dest src len ≡ some (terminated m dest src (min n len))
unfolding copy_bounded memcpy_loop
copy_bounded_lem n zero m dest src len s apart w h = absurd (omega arith)
copy_bounded_lem zero (suc f) m dest src len s apart w h =
    let e : m src ≡ 0 = ap m (sym (add-zero src)) ∙ s.ends in
    let z : min 0 len ≡ 0 = omega arith in rw (e, z, add-zero dest)
copy_bounded_lem (suc n) (suc f) m dest src zero s apart w h =
    let z : min (suc n) 0 ≡ 0 = omega arith in rw (z, and-false, add-zero dest)
copy_bounded_lem (suc n) (suc f) m dest src (suc len) s apart w h =
    let ne : m src ≢ 0 = λ e. s.chars 0 (omega arith) (ap m (add-zero src) ∙ e) in
    let z : min (suc n) (suc len) ≡ suc (min n len) = omega arith in
    let l : sub64 (suc len) 1 ≡ len = omega arith in
    let more : suc len ≢ 0 = omega arith in
    rw (ne→== (m src) 0 ne, ne→== (suc len) 0 more, z, ← terminated-suc m dest src (min n len), l)
      (copy_bounded_lem n f (store m dest (m src)) (dest + 1) (src + 1) len
        (IsString-tail dest (m src) s (omega arith)) (omega arith) (omega arith) (omega arith))

-- `after` holds the `n` bytes from `src` on, and a NUL, from `dest` on, and is `m` elsewhere.
pub record IsCopied (m after : Mem) (dest src n : ℕ) : Type 0 where
  pub bytes : (k : ℕ) → k < n → after (dest + k) ≡ m (src + k)
  pub nul : after (dest + n) ≡ 0
  pub rest : (a : ℕ) → (a < dest) ⊎ (dest + n < a) → after a ≡ m a

terminated-IsCopied :
    (m : Mem) (dest src n : ℕ)
    → (dest ≤ src) ⊎ (src + n < dest)
    → IsCopied m (terminated m dest src n) dest src n
terminated-IsCopied m dest src n apart =
    let (inside, outside) = copied m dest src n (omega arith) in
    let c = memcpy_loop n m dest src 0 in
    record {
      bytes = λ k h. store-ne c (dest + n) 0 (dest + k) (omega arith) ∙ inside k h;
      nul = store_self c (dest + n) 0;
      rest = λ a h. store-ne c (dest + n) 0 a (omega arith) ∙ outside a (omega arith);
    }

-- `strcpy` of a string of `n` characters, to a lower address or past its end, ends, copies the
-- string with its NUL, and changes no other byte.
pub strcpy_lem :
    (fuel : ℕ) (m : Mem) (dest src n : ℕ)
    → IsString m src n
    → (dest ≤ src) ⊎ (src + n < dest)
    → n < fuel
    → (after : Mem) × (strcpy fuel m dest src ≡ some after) × IsCopied m after dest src n
unfolding strcpy
strcpy_lem fuel m dest src n s apart h = (
  terminated m dest src n,
  copy_string_lem n fuel m dest src s apart h,
  terminated-IsCopied m dest src n apart,
)

-- `strncpy` of a string of `n` characters, to a lower or the same address or past its end, with `len`
-- below 2 ^ 64, copies the smaller number of `n` and `len` characters, writes a NUL behind them, so
-- at `dest + len` for a string of `len` characters or more, and changes no other byte. It ends with
-- fuel for one round more than the characters that it copies.
pub strncpy_lem :
    (fuel : ℕ) (m : Mem) (dest src len n : ℕ)
    → IsString m src n
    → (dest ≤ src) ⊎ (src + n < dest)
    → len < 2 ^ 64
    → min n len < fuel
    → (after : Mem) × (strncpy fuel m dest src len ≡ some after)
      × IsCopied m after dest src (min n len)
unfolding strncpy
strncpy_lem fuel m dest src len n s apart w h = (
  terminated m dest src (min n len),
  copy_bounded_lem n fuel m dest src len s apart w h,
  terminated-IsCopied m dest src (min n len) (omega arith),
)

-- `strcat` of strings of `d` and `n` characters, the second lying before the first or past the end
-- of the result, ends and leaves at `dest` a string of `d + n` characters: those of the first, then
-- those of the second.
pub strcat_lem :
    (fuel : ℕ) (m : Mem) (dest src d n : ℕ)
    → IsString m dest d
    → IsString m src n
    → (dest + d + n < src) ⊎ (src + n < dest)
    → d + n < fuel
    → (after : Mem) × (strcat fuel m dest src ≡ some after)
      × IsString after dest (d + n)
      × ((k : ℕ) → k < d → after (dest + k) ≡ m (dest + k))
      × ((k : ℕ) → k < n → after (dest + d + k) ≡ m (src + k))
unfolding strcat
strcat_lem fuel m dest src d n sd s apart h =
    let c = terminated-IsCopied m (dest + d) src n (omega arith) in
    let after = terminated m (dest + d) src n in
    let before : (k : ℕ) → k < d → after (dest + k) ≡ m (dest + k) =
      λ k l. c.rest (dest + k) (omega arith) in
    (
      after,
      rw (strcat, strlen_lem fuel m dest d sd (omega arith))
          (copy_string_lem n fuel m (dest + d) src s (omega arith) (omega arith)),
      record {
        chars = λ k l e. elim (dec_lt k d) [
          | yes p ↦ sd.chars k p (sym (before k p) ∙ e)
          | no q ↦
              s.chars (k - d) (omega arith)
                (sym (c.bytes (k - d) (omega arith)) ∙ ap after (omega arith) ∙ e)
        ];
        ends = ap after (omega arith) ∙ c.nul;
      },
      before,
      c.bytes,
    )

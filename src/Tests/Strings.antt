-- ===== src/Tests/Strings.antt =====
-- The functions of kernel/libs/libc/string.cpp on short texts.
use ice.Prelude.{
  ℕ, zero, suc, true, false, ◌+◌, ◌<◌, ◌≤◌, ◌≡◌, ◌⊎◌, inr, refl, arith, ltb, if◌then◌else◌, Mem,
  store, IsBytes, pos, some, ◌==◌,
}
use ice.Libc.String.{
  strlen, strlen_loop, strchr, strstr, strstr_loop, strrev, strrev_loop, memchr, memcmp, memmove,
  strncpy, strncat, copy_bounded, same_char,
}
use ice.Libc.String.Overlap.{memmove_up}
use ice.Libc.String.Length.{IsString}
use ice.Libc.String.Copy.{IsCopied, strncpy_lem}
use ice.Libc.String.Compare.Memory.{memcmp_sign}

-- "aaa" at 0, "ab" at 16, zeros elsewhere.
abbrev pub texts : Mem
texts a = if ltb a 3 then b'a' else (if a == 16 then b'a' else (if a == 17 then b'b' else 0))

texts-IsBytes : IsBytes texts
texts-IsBytes a = ground arith

pub aaa : IsString texts 0 3
aaa = record { chars = λ k h e. ground arith; ends = refl }

pub ab : IsString texts 16 2
ab = record { chars = λ k h e. ground arith; ends = refl }

first_place : (P : ℕ → Type 0) → P 0 → (k : ℕ) → k < 1 → P k
first_place P p zero h = p
first_place P p (suc k) h = absurd (omega arith)

same_a : same_char texts 0 16 ≡ true
unfolding same_char
same_a = refl

then_differ : same_char texts 1 17 ≡ false
unfolding same_char
then_differ = refl

strncpy_lem_example :
    (after : Mem) × (strncpy 5 texts 32 0 2 ≡ some after) × IsCopied texts after 32 0 2
strncpy_lem_example =
    strncpy_lem 5 texts 32 0 2 3 aaa (inr (omega arith)) (omega arith) (omega arith)

memmove_up_example :
    ((k : ℕ) → k < 2 → memmove texts 32 16 2 (31 + k) ≡ texts (15 + k))
    × ((a : ℕ) → (a < 31) ⊎ (33 ≤ a) → memmove texts 32 16 2 a ≡ texts a)
memmove_up_example =
    memmove_up texts 32 16 2 (omega arith) (omega arith) (omega arith) (omega arith)

-- "aa" is below "ab", but the byte at 2 of the second is a NUL.
memcmp_sign_example : memcmp texts 0 16 2 ≡ pos 1
memcmp_sign_example =
    memcmp_sign texts 0 16 2 1 (omega arith)
      (first_place (λ j. texts (0 + j) ≡ texts (16 + j)) refl) (λ e. omega (arith, e))

strchr_runs : strchr 5 texts 16 (pos b'b') ≡ some 17
unfolding strchr
strchr_runs = refl

memchr_runs : memchr texts 16 (pos b'b') 2 ≡ 17
unfolding memchr
memchr_runs = refl

strstr_runs : strstr 9 texts 16 17 ≡ some 17
unfolding strstr strstr_loop
strstr_runs = refl

strrev_runs : (m : Mem) × (strrev 9 texts 16 ≡ some m) × (m 16 ≡ b'b') × (m 17 ≡ b'a')
unfolding strrev strlen strlen_loop strrev_loop store
strrev_runs = (_, refl, refl, refl)

strncat_runs : (m : Mem) × (strncat 9 texts 0 16 1 ≡ some m) × (m 3 ≡ b'a') × (m 4 ≡ 0)
unfolding strncat strlen strlen_loop copy_bounded store
strncat_runs = (_, refl, refl, refl)

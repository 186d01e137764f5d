-- ===== src/Libc/String.antt =====
-- kernel/libs/libc/string.cpp. A pointer is an address, and `nullptr` is 0.
-- A counted loop recurs on the rounds left. A loop that ends at a NUL takes fuel, and `none` means
-- that the fuel ran out. A cell is read as a signed `char` by `char_value`.
pub mod Block
pub mod Overlap
pub mod Length
pub mod Copy
pub mod Compare
pub mod Find
pub mod Reverse
use ice.Prelude.{
  ℕ, zero, suc, ◌+◌, ◌%◌, ◌^◌, ◌==◌, ltb, Bool, not, true, false, ◌&&◌, if◌then◌else◌, Option, none,
  some, Mem, store, ℤ, pos, negsuc, pos_part, neg_part, char_value, ◌-ℤ◌,
}
use ice.Utils.Math.{add64, sub64}

-- `while (str[length]) length++;`
unfoldable pub strlen_loop : ℕ → Mem → ℕ → ℕ → Option ℕ
strlen_loop zero m str length = none
strlen_loop (suc f) m str length =
    let more = strlen_loop f m str (length + 1) in
    if m (str + length) == 0 then some length else more

unfoldable pub strlen : ℕ → Mem → ℕ → Option ℕ
strlen fuel m str = strlen_loop fuel m str 0

-- The string is read before `length` is compared with `len`.
pub strnlen_loop : ℕ → Mem → ℕ → ℕ → ℕ → Option ℕ
strnlen_loop zero m str len length = none
strnlen_loop (suc f) m str len length =
    let more = strnlen_loop f m str len (length + 1) in
    if not (m (str + length) == 0) && ltb length len then more else some length

pub strnlen : ℕ → Mem → ℕ → ℕ → Option ℕ
strnlen fuel m str len = strnlen_loop fuel m str len 0

-- `*str1 && *str2 && *str1 == *str2`.
unfoldable pub same_char : Mem → ℕ → ℕ → Bool
same_char m str1 str2 = not (m str1 == 0) && not (m str2 == 0) && (m str1 == m str2)

abbrev pub char_diff : Mem → ℕ → ℕ → ℤ
char_diff m str1 str2 = char_value (m str1) -ℤ char_value (m str2)

pub strcmp : ℕ → Mem → ℕ → ℕ → Option ℤ
strcmp zero m str1 str2 = none
strcmp (suc f) m str1 str2 =
    let more = strcmp f m (str1 + 1) (str2 + 1) in
    if same_char m str1 str2 then more else some (char_diff m str1 str2)

-- `len--` is evaluated where the characters agree, also in the round that it ends, so `len` has
-- wrapped round below zero when the count runs out.
pub strncmp : ℕ → Mem → ℕ → ℕ → ℕ → Option ℤ
strncmp zero m str1 str2 len = none
strncmp (suc f) m str1 str2 len =
    let more = strncmp f m (str1 + 1) (str2 + 1) (sub64 len 1) in
    let result = λ (n : ℕ). some (if n == 0 then pos 0 else char_diff m str1 str2) in
    if same_char m str1 str2 then (if len == 0 then result (sub64 len 1) else more) else result len

-- `while (*src != '\0') *dest++ = *src++; *dest = '\0';`
pub copy_string : ℕ → Mem → ℕ → ℕ → Option Mem
copy_string zero m dest src = none
copy_string (suc f) m dest src =
    let more = copy_string f (store m dest (m src)) (dest + 1) (src + 1) in
    if m src == 0 then some (store m dest 0) else more

-- The same with `&& len--` in the test.
unfoldable pub copy_bounded : ℕ → Mem → ℕ → ℕ → ℕ → Option Mem
copy_bounded zero m dest src len = none
copy_bounded (suc f) m dest src len =
    let more = copy_bounded f (store m dest (m src)) (dest + 1) (src + 1) (sub64 len 1) in
    if not (m src == 0) && not (len == 0) then more else some (store m dest 0)

-- The four return their first argument, which is left out.
pub strcpy : ℕ → Mem → ℕ → ℕ → Option Mem
strcpy fuel m dest src = copy_string fuel m dest src

pub strncpy : ℕ → Mem → ℕ → ℕ → ℕ → Option Mem
strncpy fuel m dest src len = copy_bounded fuel m dest src len

pub strcat : ℕ → Mem → ℕ → ℕ → Option Mem
strcat fuel m dest src = elim (strlen fuel m dest) [
  | none ↦ none
  | some n ↦ copy_string fuel m (dest + n) src
]

unfoldable pub strncat : ℕ → Mem → ℕ → ℕ → ℕ → Option Mem
strncat fuel m dest src len = elim (strlen fuel m dest) [
  | none ↦ none
  | some n ↦ copy_bounded fuel m (dest + n) src len
]

abbrev pub eqz : ℤ → ℤ → Bool
eqz (pos a) (pos b) = a == b
eqz (negsuc a) (negsuc b) = a == b
eqz _ _ = false

unfoldable pub strchr : ℕ → Mem → ℕ → ℤ → Option ℕ
strchr zero m str ch = none
strchr (suc f) m str ch =
    let more = strchr f m (str + 1) ch in
    let here = eqz ch (char_value (m str)) in
    if not (m str == 0) && not here then more else some (if here then str else 0)

-- `a` and `b` walk the text and the pattern; a mismatch starts again one character further on.
unfoldable pub strstr_loop : ℕ → Mem → ℕ → ℕ → ℕ → ℕ → Option ℕ
strstr_loop zero m str substr a b = none
strstr_loop (suc f) m str substr a b =
    let restart = strstr_loop f m (str + 1) substr (str + 1) substr in
    let more = strstr_loop f m str substr (a + 1) (b + 1) in
    if m b == 0
    then some str
    else (if m a == 0 then some 0 else (if m a == m b then more else restart))

unfoldable pub strstr : ℕ → Mem → ℕ → ℕ → Option ℕ
strstr fuel m str substr = strstr_loop fuel m str substr str substr

-- `for (i = 0, j = len - 1; i < j; i++, j--)` with the swap of `str[i]` and `str[j]`, whose
-- addresses wrap around.
unfoldable pub strrev_loop : ℕ → Mem → ℕ → ℕ → ℕ → Option Mem
strrev_loop zero m str i j = none
strrev_loop (suc f) m str i j =
    let a = m (add64 str i) in
    let m' = store (store m (add64 str i) (m (add64 str j))) (add64 str j) a in
    let more = strrev_loop f m' str (i + 1) (sub64 j 1) in if ltb i j then more else some m

unfoldable pub strrev : ℕ → Mem → ℕ → Option Mem
strrev fuel m str = elim (strlen fuel m str) [
  | none ↦ none
  | some len ↦ strrev_loop fuel m str 0 (sub64 len 1)
]

-- The bytes are unsigned here; the sign of a difference is taken against `p2[2]`.
pub memcmp_loop : ℕ → Mem → ℕ → ℕ → ℕ → ℤ
memcmp_loop zero m p1 p2 i = pos 0
memcmp_loop (suc left) m p1 p2 i =
    if m (p1 + i) == m (p2 + i)
    then memcmp_loop left m p1 p2 (i + 1)
    else (if ltb (m (p1 + i)) (m (p2 + 2)) then negsuc 0 else pos 1)

pub memcmp : Mem → ℕ → ℕ → ℕ → ℤ
memcmp m ptr1 ptr2 len = memcmp_loop len m ptr1 ptr2 0

pub memcpy_loop : ℕ → Mem → ℕ → ℕ → ℕ → Mem
memcpy_loop zero m dest src i = m
memcpy_loop (suc left) m dest src i =
    memcpy_loop left (store m (dest + i) (m (src + i))) dest src (i + 1)

pub memcpy : Mem → ℕ → ℕ → ℕ → Mem
memcpy m dest src len = memcpy_loop len m dest src 0

-- `pdest[i - 1] = psrc[i - 1]` for i from 0: the first index is below zero.
pub memmove_up_loop : ℕ → Mem → ℕ → ℕ → ℕ → Mem
memmove_up_loop zero m dest src i = m
memmove_up_loop (suc left) m dest src i =
    memmove_up_loop left (store m (add64 dest (sub64 i 1)) (m (add64 src (sub64 i 1)))) dest src
      (i + 1)

pub memmove : Mem → ℕ → ℕ → ℕ → Mem
memmove m dest src len =
    if ltb dest src
    then memcpy_loop len m dest src 0
    else (if ltb src dest then memmove_up_loop len m dest src 0 else m)

unfoldable pub memset_loop : ℕ → Mem → ℕ → ℕ → ℕ → Mem
memset_loop zero m p ch i = m
memset_loop (suc left) m p ch i = memset_loop left (store m (p + i) (ch % 2 ^ 8)) p ch (i + 1)

-- `ch` is given as its value in 32 bits.
unfoldable pub memset : Mem → ℕ → ℕ → ℕ → Mem
memset m dest ch len = memset_loop len m dest ch 0

-- A byte is compared with the whole `int`.
unfoldable pub memchr : Mem → ℕ → ℤ → ℕ → ℕ
memchr m src ch zero = 0
memchr m src ch (suc left) = if eqz (pos (m src)) ch then src else memchr m (src + 1) ch left

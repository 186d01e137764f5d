-- ===== src/Libc/Ctype.antt =====
-- kernel/libs/libc/ctype.cpp. An `int` is a signed number; a result that the C code gives as 0 or 1
-- is a Boolean.
pub mod Classes
use ice.Prelude.{
  ℕ, ◌+◌, ◌-◌, Bool, ◌&&◌, ◌||◌, ◌==◌, if◌then◌else◌, ℤ, pos, negsuc, pos_part, neg_part, lez, ◌+ℤ◌,
  ◌-ℤ◌,
}
use ice.Libc.String.{eqz}

-- `c >= lo && c <= hi`.
abbrev pub between : ℕ → ℕ → ℤ → Bool
between lo hi c = lez (pos lo) c && lez c (pos hi)

unfoldable pub isalnum : ℤ → Bool
isalnum c = between b'0' b'9' c || between b'a' b'z' c || between b'A' b'Z' c

pub isalpha : ℤ → Bool
isalpha c = between b'a' b'z' c || between b'A' b'Z' c

pub islower : ℤ → Bool
islower c = between b'a' b'z' c

pub isupper : ℤ → Bool
isupper c = between b'A' b'Z' c

unfoldable pub isdigit : ℤ → Bool
isdigit c = between b'0' b'9' c

unfoldable pub isxdigit : ℤ → Bool
isxdigit c = between b'0' b'9' c || between b'a' b'f' c || between b'A' b'F' c

pub iscntrl : ℤ → Bool
iscntrl c = between 0x00 0x1f c || eqz c (pos 0x7f)

pub isgraph : ℤ → Bool
isgraph c = between b'!' b'~' c

-- Space, form feed, line feed, carriage return, tab, vertical tab.
unfoldable pub isspace : ℤ → Bool
isspace c =
    eqz c (pos 0x20)
    || eqz c (pos 0x0c)
    || eqz c (pos 0x0a)
    || eqz c (pos 0x0d)
    || eqz c (pos 0x09)
    || eqz c (pos 0x0b)

unfoldable pub isblank : ℤ → Bool
isblank c = eqz c (pos 0x20) || eqz c (pos 0x09)

pub isprint : ℤ → Bool
isprint c = between b'!' b'~' c || eqz c (pos 0x20)

pub ispunct : ℤ → Bool
ispunct c = between b'!' b'/' c || between b':' b'@' c || between b'[' b'`' c || between b'{' b'~' c

pub toupper : ℤ → ℤ
toupper c = if between b'a' b'z' c then c -ℤ pos 0x20 else c

pub tolower : ℤ → ℤ
tolower c = if between b'A' b'Z' c then c +ℤ pos 0x20 else c

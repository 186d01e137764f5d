-- ===== src/Libc/String/Length.antt =====
-- Strings in memory, and `strlen`, `strnlen` of kernel/libs/libc/string.cpp.
use ice.Prelude.{ℕ, zero, suc, ◌+◌, ◌<◌, ◌≡◌, ◌≢◌, arith, some, Mem, ne→==, min, ap}
use ice.Libc.String.{strlen, strlen_loop, strnlen, strnlen_loop}

-- A string of `n` characters begins at `str`.
pub record IsString (m : Mem) (str n : ℕ) : Type 0 where
  pub chars : (k : ℕ) → k < n → m (str + k) ≢ 0
  pub ends : m (str + n) ≡ 0

strlen_loop_lem :
    (left f : ℕ) (m : Mem) (str n i : ℕ)
    → IsString m str n
    → i + left ≡ n
    → left < f
    → strlen_loop f m str i ≡ some n
unfolding strlen_loop
strlen_loop_lem left zero m str n i s e h = absurd (omega arith)
strlen_loop_lem zero (suc f) m str n i s e h = let i' : i ≡ n = omega arith in rw (i', s.ends)
strlen_loop_lem (suc left) (suc f) m str n i s e h =
    rw (ne→== (m (str + i)) 0 (s.chars i (omega arith)))
      (strlen_loop_lem left f m str n (i + 1) s (omega arith) (omega arith))

-- `strlen` of a string of `n` characters ends and gives `n`, with fuel for n + 1 rounds.
pub strlen_lem :
    (fuel : ℕ) (m : Mem) (str n : ℕ) → IsString m str n → n < fuel → strlen fuel m str ≡ some n
unfolding strlen
strlen_lem fuel m str n s h = strlen_loop_lem n fuel m str n 0 s (omega arith) h

strnlen_loop_lem :
    (left f : ℕ) (m : Mem) (str n len i : ℕ)
    → IsString m str n
    → i + left ≡ min n len
    → left < f
    → strnlen_loop f m str len i ≡ some (min n len)
unfolding strnlen_loop
strnlen_loop_lem left zero m str n len i s e h = absurd (omega arith)
strnlen_loop_lem zero (suc f) m str n len i s e h = ground (arith, s.ends, ap (λ t. m (str + t)) e)
strnlen_loop_lem (suc left) (suc f) m str n len i s e h =
    ground (arith, s.chars i, strnlen_loop_lem left f m str n len (i + 1) s)

-- `strnlen` of a string of `n` characters gives the smaller of `n` and `len`.
pub strnlen_lem :
    (fuel : ℕ) (m : Mem) (str n len : ℕ)
    → IsString m str n
    → min n len < fuel
    → strnlen fuel m str len ≡ some (min n len)
unfolding strnlen
strnlen_lem fuel m str n len s h = strnlen_loop_lem (min n len) fuel m str n len 0 s (omega arith) h

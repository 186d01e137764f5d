-- ===== src/Prelude/Bytes.antt =====
-- Byte-addressed memory, and the little-endian 64-bit words in it.
use Prim.Native.Nat.{ℕ, zero, suc, ◌+◌, ◌*◌, ◌/◌, ◌%◌, ◌^◌, ◌≤◌, ◌<◌}
use mathlib.Core.Path.{◌≡◌, refl}
use mathlib.Core.Logic.{◌≢◌, ◌⊎◌, inl, inr}
use native.Mathlib.Nat.{pow-suc}
use native.Mathlib.Omega.{arith}
use ice.Prelude.Tests.{◌==◌, if◌then◌else◌}

abbrev pub Mem : Type 0
Mem = ℕ → ℕ

-- Every cell holds a byte.
abbrev pub IsBytes : Mem → Type 0
IsBytes m = (a : ℕ) → m a < 256

unfoldable pub store : Mem → ℕ → ℕ → Mem
store m a v b = if b == a then v else m b

pub store_self : (m : Mem) (a v : ℕ) → store m a v a ≡ v
unfolding store
store_self m a v = ground arith

pub store-ne : (m : Mem) (a v b : ℕ) → b ≢ a → store m a v b ≡ m b
unfolding store
store-ne m a v b h = ground arith

-- The bytes of `v` from `a` on, the lowest first.
unfoldable pub store_bytes : ℕ → Mem → ℕ → ℕ → Mem
store_bytes zero m a v = m
store_bytes (suc n) m a v = store_bytes n (store m a (v % 256)) (a + 1) (v / 256)

unfoldable pub load_bytes : ℕ → Mem → ℕ → ℕ
load_bytes zero m a = 0
load_bytes (suc n) m a = m a + 256 * load_bytes n m (a + 1)

pub store_bytes_outside :
    (n : ℕ) (m : Mem) (a v b : ℕ) → (b < a) ⊎ (a + n ≤ b) → store_bytes n m a v b ≡ m b
unfolding store_bytes
store_bytes_outside zero m a v b h = refl
store_bytes_outside (suc n) m a v b h = ground (
  arith,
  store_bytes_outside n (store m a (v % 256)) (a + 1) (v / 256) b,
  store-ne m a (v % 256) b,
)

pub load_bytes_ext :
    (n : ℕ) (m m' : Mem) (a : ℕ)
    → ((b : ℕ) → a ≤ b → b < a + n → m b ≡ m' b)
    → load_bytes n m a ≡ load_bytes n m' a
unfolding load_bytes
load_bytes_ext zero m m' a h = refl
load_bytes_ext (suc n) m m' a h = omega (
  arith,
  h a (omega arith) (omega arith),
  load_bytes_ext n m m' (a + 1) (λ b p q. h b (omega arith) (omega arith)),
)

load_bytes-store_bytes :
    (n : ℕ) (m : Mem) (a v : ℕ) → v < 256 ^ n → load_bytes n (store_bytes n m a v) a ≡ v
unfolding load_bytes store_bytes
load_bytes-store_bytes zero m a v h = omega arith
load_bytes-store_bytes (suc n) m a v h = omega (
  arith,
  store_bytes_outside n (store m a (v % 256)) (a + 1) (v / 256) a (inl (omega arith)),
  store_self m a (v % 256),
  load_bytes-store_bytes n (store m a (v % 256)) (a + 1) (v / 256) (omega (arith, pow-suc 256 n)),
)

abbrev pub load64 : Mem → ℕ → ℕ
load64 m a = load_bytes 8 m a

abbrev pub store64 : Mem → ℕ → ℕ → Mem
store64 m a v = store_bytes 8 m a v

pub load64-store64 : (m : Mem) (a v : ℕ) → v < 2 ^ 64 → load64 (store64 m a v) a ≡ v
load64-store64 m a v h = load_bytes-store_bytes 8 m a v h

-- A word elsewhere is not changed.
pub load64-store64_ne :
    (m : Mem) (a v b : ℕ) → (b + 8 ≤ a) ⊎ (a + 8 ≤ b) → load64 (store64 m a v) b ≡ load64 m b
load64-store64_ne m a v b h =
    load_bytes_ext 8 (store64 m a v) m b (λ c p q. store_bytes_outside 8 m a v c (apart c p q h))
  where
    apart : (c : ℕ) → b ≤ c → c < b + 8 → (b + 8 ≤ a) ⊎ (a + 8 ≤ b) → (c < a) ⊎ (a + 8 ≤ c)
    apart c p q (inl l) = inl (omega arith)
    apart c p q (inr r) = inr (omega arith)

pub load_bytes-lt : (n : ℕ) (m : Mem) (a : ℕ) → IsBytes m → load_bytes n m a < 256 ^ n
unfolding load_bytes
load_bytes-lt zero m a h = omega arith
load_bytes-lt (suc n) m a h = omega (arith, pow-suc 256 n, h a, load_bytes-lt n m (a + 1) h)

-- ===== src/Cxx/Pointer/Controls.antt =====
-- The control block of kernel/include/libs/libc++/memory against the numbers of its pointers.
use ice.Prelude.{ℕ, ◌+◌, ◌≤◌, ◌<◌, ◌≡◌, ◌^◌, refl, arith, ◌==◌, if◌then◌else◌, List, [], ◌∷◌}
use ice.Cxx.Pointer.{
  Control, Pointer, deleter, delete_block, new_control, add_weak, add_shared, release_weak,
  release_shared,
}
use ice.Cxx.Pointer.Counts.{hit}

-- Nothing yet, or once, when no pointer of the kind is left.
abbrev pub once_if_none {ℓ} : {A : Type ℓ} → ℕ → A → List A
once_if_none n x = if n == 0 then x ∷ [] else []

-- A block with `n` shared and `w` weak pointers. The object is ended once, when no shared pointer is
-- left, and the block given back once, when no pointer is.
pub record Sound (k : Control) (n w : ℕ) : Type 0 where
  pub refs : k.ref_count ≡ n
  pub weaks : k.weak_count ≡ n + w
  pub ended : k.ended ≡ once_if_none n (deleter k)
  pub freed : k.freed ≡ once_if_none (n + w) (delete_block k)

pub new_control-Sound : (jointly : _) (obj : ℕ) → Sound (new_control jointly obj) 1 0
new_control-Sound jointly obj = record { refs = refl; weaks = refl; ended = refl; freed = refl }

-- What an operation does to a block `c` when it goes by the pointer `p`.
abbrev pub when_hit : Pointer → ℕ → (Control → Control) → Control → Control
when_hit p c f k = if p.ctrl == c then f k else k

pub add_weak-Sound :
    (p : Pointer) (c : ℕ) (k : Control) (n w w' : ℕ)
    → Sound k n w
    → w' ≡ w + hit p c
    → hit p c ≤ n + w
    → n + w' < 2 ^ 64
    → Sound (when_hit p c add_weak k) n w'
unfolding add_weak
add_weak-Sound p c k n w w' h e l b = record {
  refs = ground (arith, h.refs);
  weaks = ground (arith, e, l, b, h.weaks);
  ended = ground (arith, h.ended);
  freed = ground (arith, e, l, h.freed);
}

pub add_shared-Sound :
    (p : Pointer) (c : ℕ) (k : Control) (n n' w : ℕ)
    → Sound k n w
    → n' ≡ n + hit p c
    → hit p c ≤ n
    → n' + w < 2 ^ 64
    → Sound (when_hit p c add_shared k) n' w
unfolding add_shared
add_shared-Sound p c k n n' w h e l b = record {
  refs = ground (arith, e, l, b, h.refs);
  weaks = ground (arith, e, l, b, h.weaks);
  ended = ground (arith, e, l, h.ended);
  freed = ground (arith, e, l, h.freed);
}

pub release_weak-Sound :
    (p : Pointer) (c : ℕ) (k : Control) (n w w' : ℕ)
    → Sound k n w
    → w' + hit p c ≡ w
    → n + w < 2 ^ 64
    → Sound (when_hit p c release_weak k) n w'
unfolding release_weak
release_weak-Sound p c k n w w' h e b = record {
  refs = ground (arith, h.refs);
  weaks = ground (arith, e, b, h.weaks);
  ended = ground (arith, h.ended);
  freed = ground (arith, e, h.weaks, h.freed);
}

pub release_shared-Sound :
    (p : Pointer) (c : ℕ) (k : Control) (n n' w : ℕ)
    → Sound k n w
    → n' + hit p c ≡ n
    → n + w < 2 ^ 64
    → Sound (when_hit p c release_shared k) n' w
unfolding release_shared
release_shared-Sound p c k n n' w h e b = record {
  refs = ground (arith, e, b, h.refs);
  weaks = ground (arith, e, b, h.weaks);
  ended = ground (arith, e, h.refs, h.ended);
  freed = ground (arith, e, h.weaks, h.freed);
}

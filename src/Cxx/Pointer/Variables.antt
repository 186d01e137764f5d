-- ===== src/Cxx/Pointer/Variables.antt =====
-- The steps that the operations of kernel/include/libs/libc++/memory's pointers are made of, on all
-- blocks at once.
use ice.Prelude.{ℕ, ◌+◌, ◌≤◌, ◌<◌, ◌≡◌, ◌≢◌, ◌^◌, refl, sym, arith, ap, ==_iff, ne→==}
use native.Mathlib.Decide.{ℕ_discrete}
use ice.Cxx.Pointer.{
  Control, Pointer, aliased, null, put, touch, add_weak, add_shared, release_weak, release_shared,
}
use ice.Cxx.Pointer.Counts.{hit, hit_null, count, count-put, hit≤count, count≤}
use ice.Cxx.Pointer.Controls.{
  Sound, when_hit, add_weak-Sound, add_shared-Sound, release_weak-Sound, release_shared-Sound,
}

touch-when_hit :
    (p : Pointer) (f : Control → Control) (cs : ℕ → Control) (c : ℕ)
    → c ≢ 0
    → touch p f cs c ≡ when_hit p c f (cs c)
unfolding touch
touch-when_hit p f cs c h = elim (ℕ_discrete p.ctrl c) [
  | yes q ↦
      rw (ne→== p.ctrl 0 (omega (arith, q, h)), (==_iff p.ctrl c).1 q, (==_iff c p.ctrl).1 (sym q))
        (ap (λ t. f (cs t)) q)
  | no q ↦ elim (ℕ_discrete p.ctrl 0) [
    | yes z ↦ rw ((==_iff p.ctrl 0).1 z, ne→== p.ctrl c q) refl
    | no z ↦ rw (ne→== p.ctrl 0 z, ne→== p.ctrl c q, ne→== c p.ctrl (omega (arith, q))) refl
  ]
]

-- Every block agrees with the first `n` shared and the first `n` weak pointers.
abbrev pub Counted : ℕ → (ℕ → Control) → (ℕ → Pointer) → (ℕ → Pointer) → Type 0
Counted n cs f g = (c : ℕ) → c ≢ 0 → Sound (cs c) (count n f c) (count n g c)

module _ (n : ℕ) (few : n + n < 2 ^ 64) (cs : ℕ → Control) (f g : ℕ → Pointer) where
  small : (c : ℕ) → count n f c + count n g c < 2 ^ 64
  small c = let p = count≤ n f c in let q = count≤ n g c in omega (arith, few, p, q)

  pub release_shared-Counted :
      (d : ℕ)
      → d < n
      → Counted n cs f g
      → Counted n (touch (f d) release_shared cs) (put f d null) g
  release_shared-Counted d h w c z =
      let e = count-put n f d null c h in
      let o = hit_null null c z refl in
      rw (touch-when_hit (f d) release_shared cs c z) (
        release_shared-Sound (f d) c (cs c) (count n f c) _ _ (w c z) (omega (arith, e, o))
          (small c))

  pub release_weak-Counted :
      (d : ℕ) → d < n → Counted n cs f g → Counted n (touch (g d) release_weak cs) f (put g d null)
  release_weak-Counted d h w c z =
      let e = count-put n g d null c h in
      let o = hit_null null c z refl in
      rw (touch-when_hit (g d) release_weak cs c z) (
        release_weak-Sound (g d) c (cs c) _ (count n g c) _ (w c z) (omega (arith, e, o)) (small c))

-- The variable `d` is null first.
module _ (n : ℕ) (f : ℕ → Pointer) (d : ℕ) (h : d < n) where
  pub count-cleared :
      (p : Pointer) (c : ℕ) → c ≢ 0 → count n (put f d p) c ≡ count n (put f d null) c + hit p c
  count-cleared p c z =
      let a = count-put n f d p c h in
      let b = count-put n f d null c h in let o = hit_null null c z refl in omega (arith, a, b, o)

  pub hit≤cleared : (e c : ℕ) → e < n → d ≢ e → hit (f e) c ≤ count n (put f d null) c
  hit≤cleared e c l ne =
      let u = hit≤count n (put f d null) e c l in
      let k : hit (put f d null e) c ≡ hit (f e) c = rw (ne→== e d (omega (arith, ne))) refl in
      omega (arith, u, k)

  pub count-null : (c : ℕ) → c ≢ 0 → (f d).ctrl ≡ 0 → count n (put f d null) c ≡ count n f c
  count-null c z e =
      let a = count-put n f d null c h in
      let o = hit_null null c z refl in let o' = hit_null (f d) c z e in omega (arith, a, o, o')

  count-moved :
      (e x c : ℕ)
      → c ≢ 0
      → e < n
      → d ≢ e
      → count n (put (put f d (aliased (f e) x)) e null) c ≡ count n (put f d null) c
  count-moved e x c z l ne =
      let a = count-cleared (aliased (f e) x) c z in
      let b = count-put n (put f d (aliased (f e) x)) e null c l in
      let o = hit_null null c z refl in
      let k : hit (put f d (aliased (f e) x) e) c ≡ hit (f e) c =
        rw (ne→== e d (omega (arith, ne))) refl in
      omega (arith, a, b, o, k)

module _ (n : ℕ) (few : n + n < 2 ^ 64) (cs : ℕ → Control) (f g : ℕ → Pointer) where
  pub null_shared-Counted :
      (d : ℕ) → d < n → (f d).ctrl ≡ 0 → Counted n cs f g → Counted n cs (put f d null) g
  null_shared-Counted d h e w c z = rw (count-null n f d h c z e) (w c z)

  pub null_weak-Counted :
      (d : ℕ) → d < n → (g d).ctrl ≡ 0 → Counted n cs f g → Counted n cs f (put g d null)
  null_weak-Counted d h e w c z = rw (count-null n g d h c z e) (w c z)

  -- A null pointer may have an address all the same.
  pub same_block-Counted :
      (d : ℕ) (p : Pointer)
      → d < n
      → p.ctrl ≡ 0
      → Counted n cs f (put g d null)
      → Counted n cs f (put g d p)
  same_block-Counted d p h e w c z =
      let a = count-cleared n g d h p c z in
      let o = hit_null p c z e in
      let same : count n (put g d p) c ≡ count n (put g d null) c = omega (arith, a, o) in
      rw same (w c z)

  pub move_shared-Counted :
      (d e x : ℕ)
      → d < n
      → e < n
      → d ≢ e
      → Counted n cs (put f d null) g
      → Counted n cs (put (put f d (aliased (f e) x)) e null) g
  move_shared-Counted d e x h l ne w c z = rw (count-moved n f d h e x c z l ne) (w c z)

  pub move_weak-Counted :
      (d e : ℕ)
      → d < n
      → e < n
      → d ≢ e
      → Counted n cs f (put g d null)
      → Counted n cs f (put (put g d (g e)) e null)
  move_weak-Counted d e h l ne w c z = rw (count-moved n g d h e (g e).ptr c z l ne) (w c z)

  -- Then it takes what another pointer has, and is counted.
  pub add_shared-Counted :
      (d : ℕ) (p : Pointer)
      → d < n
      → ((c : ℕ) → hit p c ≤ count n (put f d null) c)
      → Counted n cs (put f d null) g
      → Counted n (touch p add_shared cs) (put f d p) g
  add_shared-Counted d p h u w c z = rw (touch-when_hit p add_shared cs c z) (
      add_shared-Sound p c (cs c) _ _ _ (w c z) (count-cleared n f d h p c z) (u c)
        (small n few cs (put f d p) g c))

  pub add_weak-Counted :
      (d : ℕ) (p : Pointer)
      → d < n
      → ((c : ℕ) → hit p c ≤ count n f c + count n (put g d null) c)
      → Counted n cs f (put g d null)
      → Counted n (touch p add_weak cs) f (put g d p)
  add_weak-Counted d p h u w c z = rw (touch-when_hit p add_weak cs c z) (
      add_weak-Sound p c (cs c) _ _ _ (w c z) (count-cleared n g d h p c z) (u c)
        (small n few cs f (put g d p) c))

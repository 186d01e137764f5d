-- ===== src/Memory/Slab/Classes.antt =====
-- The choice of a slab in kernel/memory/memory.cpp.
use ice.Prelude.{
  ne→==, ◌≢◌, ℕ, zero, suc, ◌+◌, ◌*◌, ◌≤◌, ◌<◌, ◌≡◌, ◌⊎◌, inl, inr, List, [], ◌∷◌, refl, ap, ◌∙◌,
  arith, Mem, load64, leb, if◌then◌else◌, Bool-cases, false,
}
use native.Mathlib.Nat.{add-zero}
use ice.Memory.Physical.{Pmm}
use ice.Memory.Slab.{malloc, big_malloc, slab_alloc, ok, get_slab, get_slab_from, sizes}

-- The slabs from `slab` on hold these object sizes.
abbrev pub HasSizes : Mem → ℕ → List ℕ → Type 0
HasSizes m slab [] = Unit
HasSizes m slab (n ∷ ns) = (load64 m (slab + 8) ≡ n) × HasSizes m (slab + 16) ns

abbrev length : List ℕ → ℕ
length [] = 0
length (n ∷ ns) = suc (length ns)

-- The address of the first slab among these whose objects hold `size` bytes, or 0.
abbrev pub first_fit : List ℕ → ℕ → ℕ → ℕ
first_fit [] slab size = 0
first_fit (n ∷ ns) slab size = if leb size n then slab else first_fit ns (slab + 16) size

get_slab_from-first_fit :
    (ns : List ℕ) (slab size : ℕ) (s : Pmm)
    → HasSizes s.mem slab ns
    → get_slab_from (length ns) slab size s ≡ ok (first_fit ns slab size) s
unfolding get_slab_from
get_slab_from-first_fit [] slab size s h = refl
get_slab_from-first_fit (n ∷ ns) slab size s h = rw h.0 (elim (Bool-cases (leb size n)) [
  | inl y ↦ rw y
  | inr y ↦ rw y (get_slab_from-first_fit ns (slab + 16) size s h.1)
])

-- The slab at place `i` is the first that fits, or none does.
abbrev Fit : Mem → List ℕ → ℕ → ℕ → Type 0
Fit m ns slab size =
    ((first_fit ns slab size ≡ 0) × ((k : ℕ) → k < length ns → load64 m (slab + 16 * k + 8) < size))
    ⊎ ((i : ℕ) × (i < length ns)
        × (first_fit ns slab size ≡ slab + 16 * i)
        × (size ≤ load64 m (slab + 16 * i + 8))
        × ((k : ℕ) → k < i → load64 m (slab + 16 * k + 8) < size))

search-Fit : (m : Mem) (ns : List ℕ) (slab size : ℕ) → HasSizes m slab ns → Fit m ns slab size
search-Fit m [] slab size h = inl (refl, λ k l. absurd (omega arith))
search-Fit m (n ∷ ns) slab size h = elim (Bool-cases (leb size n)) [
  | inl y ↦
      inr (0, omega arith, rw y (omega arith), rw here (ground arith), λ k l. absurd (omega arith))
  | inr y ↦ later y (search-Fit m ns (slab + 16) size h.1)
]
  where
    here : load64 m (slab + 0 + 8) ≡ n
    here = rw (add-zero slab) h.0

    shift : (k : ℕ) → load64 m (slab + 16 * suc k + 8) ≡ load64 m (slab + 16 + 16 * k + 8)
    shift k = ap (load64 m) (omega arith)

    below :
        (j : ℕ)
        → leb size n ≡ false
        → ((k : ℕ) → k < j → load64 m (slab + 16 + 16 * k + 8) < size)
        → (k : ℕ) → k < suc j
        → load64 m (slab + 16 * k + 8) < size
    below j y w zero l = rw here (ground arith)
    below j y w (suc k) l = omega (arith, shift k, w k (omega arith))

    later : leb size n ≡ false → Fit m ns (slab + 16) size → Fit m (n ∷ ns) slab size
    later y (inl (e, w)) = inl (rw y e, below (length ns) y w)
    later y (inr (i, l, e, f, w)) =
        inr (suc i, omega arith, rw y (omega arith), omega (arith, shift i), below i y w)

-- With the ten sizes in place, `get_slab` leaves the state alone. It gives a null pointer for a
-- request of more than 1024 bytes, or the first of the ten slabs whose objects hold the request,
-- and then the objects of every slab before it are too small.
pub get_slab_lem :
    (slabs size : ℕ) (s : Pmm)
    → HasSizes s.mem slabs sizes
    → ((1024 < size) × (get_slab slabs size s ≡ ok 0 s))
      ⊎ ((i : ℕ) × (i < 10)
          × (get_slab slabs size s ≡ ok (slabs + 16 * i) s)
          × (size ≤ load64 s.mem (slabs + 16 * i + 8))
          × ((k : ℕ) → k < i → load64 s.mem (slabs + 16 * k + 8) < size))
unfolding get_slab
get_slab_lem slabs size s h = choose (search-Fit s.mem sizes slabs size h)
  where
    run : get_slab_from 10 slabs size s ≡ ok (first_fit sizes slabs size) s
    run = get_slab_from-first_fit sizes slabs size s h

    largest : load64 s.mem (slabs + 16 * 9 + 8) ≡ 1024
    largest = ap (load64 s.mem) (omega arith) ∙ h.1.1.1.1.1.1.1.1.1.0

    choose :
        Fit s.mem sizes slabs size
        → ((1024 < size) × (get_slab_from 10 slabs size s ≡ ok 0 s))
          ⊎ ((i : ℕ) × (i < 10)
              × (get_slab_from 10 slabs size s ≡ ok (slabs + 16 * i) s)
              × (size ≤ load64 s.mem (slabs + 16 * i + 8))
              × ((k : ℕ) → k < i → load64 s.mem (slabs + 16 * k + 8) < size))
    choose (inl (e, w)) = inl (omega (arith, w 9 (omega arith), largest), run ∙ ap (λ t. ok t s) e)
    choose (inr (i, l, e, f, w)) = inr (i, l, run ∙ ap (λ t. ok t s) e, f, w)

-- With the ten sizes in place, `malloc` is `big_malloc` for a request of more than 1024 bytes.
-- Otherwise it takes an object from the first of the ten slabs whose objects hold the request, and
-- the objects of every slab before it are too small.
pub malloc_lem :
    (hhdm slabs size : ℕ) (s : Pmm)
    → HasSizes s.mem slabs sizes
    → slabs ≢ 0
    → ((1024 < size) × (malloc hhdm slabs size s ≡ big_malloc hhdm size s))
      ⊎ ((i : ℕ) × (i < 10)
          × (malloc hhdm slabs size s ≡ slab_alloc hhdm (slabs + 16 * i) s)
          × (size ≤ load64 s.mem (slabs + 16 * i + 8))
          × ((k : ℕ) → k < i → load64 s.mem (slabs + 16 * k + 8) < size))
unfolding malloc
malloc_lem hhdm slabs size s h n = elim (get_slab_lem slabs size s h) [
  | inl (l, e) ↦ inl (l, ground (arith, e))
  | inr (i, l, e, fits, before) ↦
      inr (
        i,
        l,
        ground (arith, e, ne→== (slabs + 16 * i) 0 (λ q. n (omega (arith, q)))),
        fits,
        before,
      )
]

abbrev pub AllBelow : ℕ → List ℕ → Type 0
AllBelow bound [] = Unit
AllBelow bound (n ∷ ns) = (n ≤ bound) × AllBelow bound ns

-- No slab has larger objects than the largest of the sizes.
pub size-AllBelow :
    (m : Mem) (bound : ℕ) (ns : List ℕ) (slab i : ℕ)
    → HasSizes m slab ns
    → AllBelow bound ns
    → i < length ns
    → load64 m (slab + 16 * i + 8) ≤ bound
size-AllBelow m bound [] slab i h b l = absurd (omega arith)
size-AllBelow m bound (n ∷ ns) slab zero h b l =
    omega (arith, ap (λ t. load64 m (t + 8)) (add-zero slab), h.0, b.0)
size-AllBelow m bound (n ∷ ns) slab (suc i) h b l =
    let shift : slab + 16 * suc i + 8 ≡ slab + 16 + 16 * i + 8 = omega arith in
    omega (arith, ap (load64 m) shift, size-AllBelow m bound ns (slab + 16) i h.1 b.1 (omega arith))

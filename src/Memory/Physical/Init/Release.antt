-- ===== src/Memory/Physical/Init/Release.antt =====
-- What the last loop of `init` in kernel/memory/physical.cpp frees.
use ice.Prelude.{
  ℕ, zero, suc, ◌+◌, ◌-◌, ◌*◌, ◌/◌, ◌%◌, ◌^◌, ◌≤◌, ◌<◌, ◌≡◌, if◌then◌else◌, List, [], ◌∷◌, ltb, leb,
  Bool, ◌&&◌, ◌||◌, arith, refl, ap, ◌∙◌, Bool-cases, true, false, inl, inr,
}
use native.Mathlib.Nat.{add-zero}
use ice.Memory.Physical.{Pmm, is_used, mark_range, page_size}
use ice.Memory.Physical.Scan.{is_used-mark_range}
use ice.Memory.Physical.Init.{Entry, is_usable, release_pages, release_entry, release}

-- An entry of whole pages, `first` being its first page and `pages` their number.
abbrev pub first : Entry → ℕ
first e = e.base / page_size

abbrev pub pages : Entry → ℕ
pages e = e.length / page_size

-- The boot loader aligns usable entries to pages; here they lie in the first 2048 pages.
pub record IsPages (e : Entry) : Type 0 where
  pub base_aligned : e.base % page_size ≡ 0
  pub length_aligned : e.length % page_size ≡ 0
  pub low : first e + pages e ≤ 2048

abbrev pub AllPages : List Entry → Type 0
AllPages [] = Unit
AllPages (e ∷ es) = (is_usable e ≡ true → IsPages e) × AllPages es

-- The page lies in a usable entry.
abbrev pub in_usable : List Entry → ℕ → Bool
in_usable [] j = false
in_usable (e ∷ es) j =
    (is_usable e && (leb (first e) j && ltb j (first e + pages e))) || in_usable es j

release_pages-mark_range :
    (left base t : ℕ) (s : Pmm)
    → base % page_size ≡ 0
    → t % page_size ≡ 0
    → base + t + left * page_size < 2 ^ 64
    → release_pages left base t s ≡ mark_range left s ((base + t) / page_size) false
unfolding release_pages mark_range
release_pages-mark_range zero base t s hb ht h = refl
release_pages-mark_range (suc left) base t s hb ht h =
    let here : (base + t) % 2 ^ 64 / page_size ≡ (base + t) / page_size = omega arith in
    let next : (base + (t + page_size)) / page_size ≡ (base + t) / page_size + 1 = omega arith in
    rw here (
      release_pages-mark_range left base (t + page_size) _ hb (omega arith) (omega arith) ∙ rw next)

release_entry-mark_range :
    (e : Entry) (s : Pmm)
    → IsPages e
    → is_usable e ≡ true
    → release_entry e s ≡ mark_range (pages e) s (first e) false
unfolding release_entry
release_entry-mark_range e s p y =
    let n : (e.length + page_size - 1) / page_size ≡ pages e = omega (arith, p.length_aligned) in
    rw (y, n)
      (release_pages-mark_range (pages e) e.base 0 s p.base_aligned (omega arith)
          (omega (arith, p.low, p.base_aligned))
        ∙ rw (add-zero e.base))

-- If the usable entries are whole pages in the first 2048 pages, the last loop frees exactly their
-- pages.
pub release_lem :
    (es : List Entry) (s : Pmm) (j : ℕ)
    → AllPages es
    → j < 2048
    → is_used (release es s) j ≡ (if in_usable es j then false else is_used s j)
unfolding release
release_lem [] s j p h = refl
release_lem (e ∷ es) s j p h = elim (Bool-cases (is_usable e)) [
  | inl y ↦ ground (
    arith,
    release_lem es (release_entry e s) j p.1 h,
    ap (λ t. is_used t j) (release_entry-mark_range e s (p.0 y) y),
    is_used-mark_range (pages e) s (first e) false j (p.0 y).low h,
  )
  | inr n ↦ ground (arith, release_lem es (release_entry e s) j p.1 h, skipped n)
]
  where
    skipped : is_usable e ≡ false → release_entry e s ≡ s
    skipped n = unfold release_entry in rw n

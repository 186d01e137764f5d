-- ===== src/Memory/Slab/History.antt =====
-- Histories of one slab of kernel/memory/memory.cpp: `alloc` while it has free objects, `free` of
-- what was handed out, in any order, and what the owners write into their objects between the calls.
pub mod Objects
use ice.Prelude.{
  ℕ, ◌+◌, ◌≤◌, ◌<◌, ◌^◌, ◌≡◌, ◌≢◌, ◌⊎◌, inl, inr, List, [], ◌∷◌, ◌++◌, refl, sym, ap, ◌∙◌, arith,
  Mem, load64, load_bytes_ext,
}
use mathlib.Core.Path.{subst}
use ice.Memory.Physical.{Pmm}
use ice.Memory.Slab.{Run, ok, panic, slab_alloc, slab_free}
use ice.Memory.Slab.FreeList.{IsFree, slab_free-push, slab_alloc-pop}
use ice.Memory.Slab.FreeList.Chain.{IsChain, Away, Disjoint, IsChain-frame}
use Objects.{Held, Own, removed-Own, removed-Held, taken-Held}

module _ (hhdm slab size : ℕ) where
  -- The lists have the free objects, the next one to be handed out first, and those handed out.
  pub data Step : Pmm → List ℕ → List ℕ → Pmm → List ℕ → List ℕ → Type 0 where
    takes :
        {s s' : Pmm} {x ptr : ℕ} {xs live : List ℕ}
        → slab_alloc hhdm slab s ≡ ok ptr s'
        → Step s (x ∷ xs) live s' xs (ptr ∷ live)
    gives :
        {s s' : Pmm} {xs : List ℕ} (before : List ℕ) (ptr : ℕ) (after : List ℕ)
        → slab_free slab ptr s ≡ ok tt s'
        → Step s xs (before ++ (ptr ∷ after)) s' (ptr ∷ xs) (before ++ after)
    writes :
        {s : Pmm} {xs : List ℕ} (before : List ℕ) (ptr : ℕ) (after : List ℕ) (m : Mem)
        → ((a : ℕ) → Disjoint ptr size a 1 → m a ≡ s.mem a)
        → Step s xs (before ++ (ptr ∷ after)) (record s { mem = m }) xs (before ++ (ptr ∷ after))

  pub data Reach (s : Pmm) (free : List ℕ) : Pmm → List ℕ → List ℕ → Type 0 where
    begins : Reach s free s free []
    later :
        {t u : Pmm} {xs ys live live' : List ℕ}
        → Reach s free t xs live
        → Step t xs live u ys live'
        → Reach s free u ys live'

  pub record Invariant (t : Pmm) (xs live : List ℕ) : Type 0 where
    pub free : IsFree t.mem slab size xs
    pub held : Held slab size xs live

-- What holds of a result and its state.
abbrev After {ℓ} : {A : Type ℓ} → (A → Pmm → Type 0) → Run A → Type 0
After q (ok a t) = q a t
After q panic = ⊥

module _ (hhdm slab size : ℕ) where
  takes-Invariant :
      (s s' : Pmm) (x ptr : ℕ) (xs live : List ℕ)
      → slab_alloc hhdm slab s ≡ ok ptr s'
      → Invariant hhdm slab size s (x ∷ xs) live
      → Invariant hhdm slab size s' xs (ptr ∷ live)
  takes-Invariant s s' x ptr xs live e i =
      let (s1, taken, free, zeroed, kept) = slab_alloc-pop hhdm slab size x s i.free in
      subst (After (λ a t. Invariant hhdm slab size t xs (a ∷ live))) (sym taken ∙ e) record {
        free = free;
        held =
            taken-Held slab size xs x live i.free.chain.1 i.free.chain.2 i.free.apart.0
              i.free.chain.3 i.held;
      }

  gives-Invariant :
      (s s' : Pmm) (xs before : List ℕ) (ptr : ℕ) (after : List ℕ)
      → slab_free slab ptr s ≡ ok tt s'
      → Invariant hhdm slab size s xs (before ++ (ptr ∷ after))
      → Invariant hhdm slab size s' (ptr ∷ xs) (before ++ after)
  gives-Invariant s s' xs before ptr after e i =
      let own = removed-Own slab size xs before ptr after i.held in
      let (s1, given, free, kept) =
        slab_free-push slab size ptr s i.free own.ne_null own.word own.from_slab own.from_free in
      subst (After (λ a t. Invariant hhdm slab size t (ptr ∷ xs) (before ++ after))) (sym given ∙ e)
        record { free = free; held = removed-Held slab size xs before ptr after i.held }

  writes-Invariant :
      (s : Pmm) (xs before : List ℕ) (ptr : ℕ) (after : List ℕ) (m : Mem)
      → ((a : ℕ) → Disjoint ptr size a 1 → m a ≡ s.mem a)
      → Invariant hhdm slab size s xs (before ++ (ptr ∷ after))
      → Invariant hhdm slab size (record s { mem = m }) xs (before ++ (ptr ∷ after))
  writes-Invariant s xs before ptr after m same i = record {
    free = record {
      chain =
          subst (λ p. IsChain size m p xs) (sym (word slab (omega (arith, own.from_slab))))
            (IsChain-frame size s.mem m ptr size (load64 s.mem slab) xs i.free.enough.0
              own.from_free word i.free.chain);
      apart = i.free.apart;
      object_size = word (slab + 8) (omega (arith, own.from_slab)) ∙ i.free.object_size;
      enough = i.free.enough;
    };
    held = i.held;
  }
    where
      own : Own slab size xs ptr (before ++ after)
      own = removed-Own slab size xs before ptr after i.held

      word : (b : ℕ) → Disjoint ptr size b 8 → load64 m b ≡ load64 s.mem b
      word b d = load_bytes_ext 8 m s.mem b (λ a p q. same a (omega arith))

  Step-Invariant :
      {s t : Pmm} {xs ys live live' : List ℕ}
      → Step hhdm slab size s xs live t ys live'
      → Invariant hhdm slab size s xs live
      → Invariant hhdm slab size t ys live'
  Step-Invariant (takes {s = s} {s' = s'} {x = x} {ptr = ptr} {xs = xs} {live = live} e) i =
      takes-Invariant s s' x ptr xs live e i
  Step-Invariant (gives {s = s} {s' = s'} {xs = xs} before ptr after e) i =
      gives-Invariant s s' xs before ptr after e i
  Step-Invariant (writes {s = s} {xs = xs} before ptr after m same) i =
      writes-Invariant s xs before ptr after m same i

  -- From a slab with a chain of free objects and none handed out, any history of calls of `alloc`
  -- while an object is free, of calls of `free` for what was handed out, in any order, and of writes
  -- inside such an object leaves the slab with the chain that these calls pop from and push to; the
  -- objects handed out lie apart from each other, from those of the chain and from the slab.
  pub Reach-Invariant :
      {s : Pmm} {free : List ℕ} {t : Pmm} {xs live : List ℕ}
      → IsFree s.mem slab size free
      → Reach hhdm slab size s free t xs live
      → Invariant hhdm slab size t xs live
  Reach-Invariant f begins = record { free = f; held = tt }
  Reach-Invariant f (later r st) = Step-Invariant st (Reach-Invariant f r)

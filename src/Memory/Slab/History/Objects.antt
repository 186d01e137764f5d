-- ===== src/Memory/Slab/History/Objects.antt =====
-- The objects that a slab of kernel/memory/memory.cpp has handed out.
use ice.Prelude.{ℕ, ◌<◌, ◌^◌, ◌≢◌, List, [], ◌∷◌, ◌++◌, arith}
use ice.Memory.Slab.FreeList.Chain.{Away, Disjoint}

-- The object is a pointer, and lies apart from the slab, the free objects and other objects.
pub record Own (slab size : ℕ) (free : List ℕ) (x : ℕ) (others : List ℕ) : Type 0 where
  pub ne_null : x ≢ 0
  pub word : x < 2 ^ 64
  pub from_slab : Disjoint slab 16 x size
  pub from_free : Away x size size free
  pub from_others : Away x size size others

abbrev pub Held : ℕ → ℕ → List ℕ → List ℕ → Type 0
Held slab size free [] = Unit
Held slab size free (x ∷ xs) = Own slab size free x xs × Held slab size free xs

-- One object less.
pub Away-removed :
    (a n size : ℕ) (before : List ℕ) (b : ℕ) (after : List ℕ)
    → Away a n size (before ++ (b ∷ after))
    → Disjoint a n b size × Away a n size (before ++ after)
Away-removed a n size [] b after w = w
Away-removed a n size (x ∷ before) b after w =
    let (d, rest) = Away-removed a n size before b after w.1 in (d, (w.0, rest))

pub removed-Own :
    (slab size : ℕ) (free before : List ℕ) (b : ℕ) (after : List ℕ)
    → Held slab size free (before ++ (b ∷ after))
    → Own slab size free b (before ++ after)
removed-Own slab size free [] b after h = h.0
removed-Own slab size free (x ∷ before) b after h =
    let rest = removed-Own slab size free before b after h.1 in
    record {
      ne_null = rest.ne_null;
      word = rest.word;
      from_slab = rest.from_slab;
      from_free = rest.from_free;
      from_others = (
        omega (arith, (Away-removed x size size before b after h.0.from_others).0),
        rest.from_others,
      );
    }

-- The object is free again, and apart from the others that are held.
pub removed-Held :
    (slab size : ℕ) (free before : List ℕ) (b : ℕ) (after : List ℕ)
    → Held slab size free (before ++ (b ∷ after))
    → Held slab size (b ∷ free) (before ++ after)
removed-Held slab size free [] b after h = freed after h.0.from_others h.1
  where
    freed :
        (xs : List ℕ) → Away b size size xs → Held slab size free xs → Held slab size (b ∷ free) xs
    freed [] w k = tt
    freed (x ∷ xs) w k = (
      record {
        ne_null = k.0.ne_null;
        word = k.0.word;
        from_slab = k.0.from_slab;
        from_free = (omega arith, k.0.from_free);
        from_others = k.0.from_others;
      },
      freed xs w.1 k.1,
    )
removed-Held slab size free (x ∷ before) b after h =
    let (d, rest) = Away-removed x size size before b after h.0.from_others in
    (
      record {
        ne_null = h.0.ne_null;
        word = h.0.word;
        from_slab = h.0.from_slab;
        from_free = (d, h.0.from_free);
        from_others = rest;
      },
      removed-Held slab size free before b after h.1,
    )

-- The next free object is held, and apart from the others.
taken-Away :
    (slab size : ℕ) (free : List ℕ) (x : ℕ) (live : List ℕ)
    → Held slab size (x ∷ free) live
    → Away x size size live
taken-Away slab size free x [] h = tt
taken-Away slab size free x (y ∷ live) h =
    (omega (arith, h.0.from_free.0), taken-Away slab size free x live h.1)

fewer_free :
    (slab size : ℕ) (free : List ℕ) (x : ℕ) (live : List ℕ)
    → Held slab size (x ∷ free) live
    → Held slab size free live
fewer_free slab size free x [] h = tt
fewer_free slab size free x (y ∷ live) h = (
  record {
    ne_null = h.0.ne_null;
    word = h.0.word;
    from_slab = h.0.from_slab;
    from_free = h.0.from_free.1;
    from_others = h.0.from_others;
  },
  fewer_free slab size free x live h.1,
)

pub taken-Held :
    (slab size : ℕ) (free : List ℕ) (x : ℕ) (live : List ℕ)
    → x ≢ 0
    → x < 2 ^ 64
    → Disjoint slab 16 x size
    → Away x size size free
    → Held slab size (x ∷ free) live
    → Held slab size free (x ∷ live)
taken-Held slab size free x live n w d f h = (
  record {
    ne_null = n;
    word = w;
    from_slab = d;
    from_free = f;
    from_others = taken-Away slab size free x live h;
  },
  fewer_free slab size free x live h,
)

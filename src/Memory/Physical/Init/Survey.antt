-- ===== src/Memory/Physical/Init/Survey.antt =====
-- What the first loop of `init` in kernel/memory/physical.cpp adds up.
use ice.Prelude.{ℕ, ◌+◌, ◌^◌, ◌<◌, ◌≡◌, if◌then◌else◌, List, [], ◌∷◌, max, arith, ap, ◌∙◌}
use mathlib.Core.Path.{ap₂}
use native.Mathlib.Nat.{add-zero, add_assoc}
use ice.Memory.Physical.{Pmm}
use ice.Memory.Physical.Init.{Entry, is_usable, survey, survey_entry}

-- The bytes of the usable entries.
abbrev pub usable_bytes : List Entry → ℕ
usable_bytes [] = 0
usable_bytes (e ∷ es) = (if is_usable e then e.length else 0) + usable_bytes es

-- The highest end among the usable entries, and `n`.
abbrev pub usable_top : List Entry → ℕ → ℕ
usable_top [] n = n
usable_top (e ∷ es) n = usable_top es (if is_usable e then max n (e.base + e.length) else n)

abbrev pub highest_top : List Entry → ℕ → ℕ
highest_top [] n = n
highest_top (e ∷ es) n = highest_top es (max n (e.base + e.length))

-- No entry ends past the address space.
abbrev pub Fits : List Entry → Type 0
Fits [] = Unit
Fits (e ∷ es) = (e.base + e.length < 2 ^ 64) × Fits es

-- The state after one entry, with sums that do not wrap.
abbrev counted : Entry → Pmm → Pmm
counted e s = record s {
  usable_memory = s.usable_memory + (if is_usable e then e.length else 0);
  total_memory = s.total_memory + (if is_usable e then e.length else 0);
  mem_usable_top =
      if is_usable e then max s.mem_usable_top (e.base + e.length) else s.mem_usable_top;
  mem_top = max s.mem_top (e.base + e.length);
}

survey_entry-counted :
    (e : Entry) (s : Pmm)
    → e.base + e.length < 2 ^ 64
    → s.usable_memory + (if is_usable e then e.length else 0) < 2 ^ 64
    → s.total_memory + (if is_usable e then e.length else 0) < 2 ^ 64
    → survey_entry e s ≡ counted e s
unfolding survey_entry
survey_entry-counted e s f u t = ground arith

-- For entries that lie in the address space, whose usable bytes do not overflow 64 bits with what
-- was counted before, the first loop adds up the usable bytes as usable and as total memory, and
-- finds the highest end of the usable entries and of all entries; it leaves the rest as it was.
pub survey_lem :
    (es : List Entry) (s : Pmm)
    → Fits es
    → s.usable_memory + usable_bytes es < 2 ^ 64
    → s.total_memory + usable_bytes es < 2 ^ 64
    → survey es s ≡ record s {
      usable_memory = s.usable_memory + usable_bytes es;
      total_memory = s.total_memory + usable_bytes es;
      mem_usable_top = usable_top es s.mem_usable_top;
      mem_top = highest_top es s.mem_top;
    }
unfolding survey
survey_lem [] s f u t = rw (add-zero s.usable_memory, add-zero s.total_memory)
survey_lem (e ∷ es) s f u t =
    ap (survey es) (survey_entry-counted e s f.0 (omega arith) (omega arith))
    ∙ survey_lem es (counted e s) f.1 (omega arith) (omega arith)
    ∙ ap₂
        (λ x y. record s {
          usable_memory = x;
          total_memory = y;
          mem_usable_top = usable_top (e ∷ es) s.mem_usable_top;
          mem_top = highest_top (e ∷ es) s.mem_top;
        })
        (add_assoc s.usable_memory _ (usable_bytes es))
        (add_assoc s.total_memory _ (usable_bytes es))

-- ===== src/Memory/Physical.antt =====
-- kernel/memory/physical.cpp: the page allocator over a bitmap that lies in memory itself.
-- The file's static variables, and the memory, are one state. Page numbers are below 2 ^ 31, where
-- the conversion to the bitmap's `int` index changes nothing. Logging is left out.
pub mod Scan
pub mod Alloc
pub mod Retry
pub mod Free
pub mod Use
pub mod History
pub mod Init
use ice.Prelude.{
  ℕ, zero, suc, ◌+◌, ◌-◌, ◌*◌, ◌/◌, ◌%◌, ◌^◌, ◌==◌, ltb, leb, not, Bool, true, false, if◌then◌else◌,
  List, [], ◌∷◌, Mem, min, max,
}
use ice.Utils.Math.{add64, sub64, align_up, tohh}
use ice.Utils.Bitmap.{Bitmap, get, set, reassign, empty}
use ice.Libc.String.{memset}

abbrev pub page_size : ℕ
page_size = 0x1000

pub record Pmm : Type 0 where
  pub mem : Mem
  pub bitmap : Bitmap
  pub last_index : ℕ
  pub mem_usable_top : ℕ
  pub mem_top : ℕ
  pub usable_memory : ℕ
  pub total_memory : ℕ
  pub used_memory : ℕ

unfoldable pub total : Pmm → ℕ
total s = s.total_memory

unfoldable pub usable : Pmm → ℕ
usable s = s.usable_memory

unfoldable pub used : Pmm → ℕ
used s = s.used_memory

-- The overload without arguments.
unfoldable pub free_memory : Pmm → ℕ
free_memory s = sub64 s.usable_memory s.used_memory

-- `bitmap.get` and `bitmap.set` on the allocator's bitmap.
unfoldable pub is_used : Pmm → ℕ → Bool
is_used s page = get s.mem s.bitmap page

unfoldable pub mark : Pmm → ℕ → Bool → Pmm
mark s page value = record s { mem = set s.mem s.bitmap page value }

-- `for (i = page; i < end; i++) bitmap.set(i, value)`, with the rounds left first.
unfoldable pub mark_range : ℕ → Pmm → ℕ → Bool → Pmm
mark_range zero s page value = s
mark_range (suc left) s page value = mark_range left (mark s page value) (page + 1) value

-- `inner_alloc`: `left` counts the rounds until `last_index` reaches the limit, and `p` the free
-- pages just passed. The pointer 0 is the result where no run is found.
unfoldable pub inner_alloc : ℕ → ℕ → ℕ → Pmm → ℕ × Pmm
inner_alloc zero count p s = (0, s)
inner_alloc (suc left) count p s =
    let s' = record s { last_index = s.last_index + 1 } in
    let after_used = inner_alloc left count 0 s' in
    let after_free = inner_alloc left count (p + 1) s' in
    let page = s'.last_index - count in
    if is_used s s.last_index
    then after_used
    else (if p + 1 == count
        then (page * page_size, mark_range (s'.last_index - page) s' page true)
        else after_free)

-- `panic` does not return.
pub data Outcome : Type 0 where
  done : ℕ → Pmm → Outcome
  out_of_memory : Outcome

module _ (hhdm_offset : ℕ) where
  -- The end of `alloc`, for a run that was found.
  unfoldable pub finish : ℕ → ℕ × Pmm → Outcome
  finish count (ret, s) = done ret (record s {
    mem = memset s.mem (tohh hhdm_offset ret) 0 (count * page_size);
    used_memory = add64 s.used_memory (count * page_size);
  })

  unfoldable pub alloc : ℕ → Pmm → Outcome
  unfolding finish
  alloc count s =
      let i = s.last_index in
      let first = inner_alloc (s.mem_usable_top / page_size - i) count 0 s in
      let second = inner_alloc i count 0 (record first.1 { last_index = 0 }) in
      if count == 0
      then done 0 s
      else (if first.0 == 0
          then (if second.0 == 0 then out_of_memory else finish count second)
          else finish count first)

unfoldable pub free : ℕ → ℕ → Pmm → Pmm
unfolding mark_range
free ptr count s =
    let page = ptr / page_size in
    let s' = mark_range count s page false in
    if ptr == 0 then s else record s' {
      last_index = min s'.last_index page;
      used_memory = sub64 s'.used_memory (count * page_size);
    }

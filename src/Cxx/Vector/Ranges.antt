-- ===== src/Cxx/Vector/Ranges.antt =====
-- What kernel/include/libs/libc++/vector does with several objects: its constructors, assignments,
-- `resize` with a value and `insert` of a range. The range is `n` objects of another block, from the
-- place `start` on.
pub mod Loops
pub mod Insert
pub mod Fill
use ice.Prelude.{ℕ, zero, suc, ◌+◌, ◌-◌, ◌*◌, ◌%◌, ◌^◌, Bool, ◌==◌, ltb, if◌then◌else◌}
use ice.Cxx.Vector.{Attempt, undefined, done}
use ice.Utils.Math.{add64, sub64}
use ice.Cxx.Vector.{
  Block, Vector, get, put, copy, reserve, new_array, next_cap, empty_vector, ◌>>=◌,
}

module _ {ℓ} {A : Type ℓ} where
  -- `for (; i < n; ++i) ptr[i] = val`.
  unfoldable pub fill_items : ℕ → ℕ → A → Block A → Attempt (Block A)
  fill_items zero i x b = done b
  fill_items (suc left) i x b = put b i x >>= λ b'. fill_items left (i + 1) x b'

  -- `for (i = 0; i < n; ++i) ptr[idx + i] = first[i]`.
  unfoldable pub copy_range : ℕ → ℕ → ℕ → Block A → Block A → Attempt (Block A)
  copy_range zero start i from to = done to
  copy_range (suc left) start i from to =
      get from start >>= λ x. put to i x >>= λ to'. copy_range left (start + 1) (i + 1) from to'

  -- `for (i = sz + n - 1; i >= lo; --i) ptr[i] = ptr[i - n]`, with fuel.
  unfoldable pub shift_far : ℕ → ℕ → ℕ → ℕ → Block A → Attempt (Block A)
  shift_far zero i lo n b = undefined
  shift_far (suc f) i lo n b =
      if ltb i lo
      then done b
      else (get b (sub64 i n) >>= λ x. put b i x >>= λ b'. shift_far f (sub64 i 1) lo n b')

  -- `max(sz + n, cap == 0 ? 1 : cap * 2)`.
  abbrev pub range_cap : ℕ → Vector A → ℕ
  range_cap n v = if ltb (add64 v.sz n) (next_cap v) then next_cap v else add64 v.sz n

  module _ (blank : A) where
    -- `operator=(__vector&&)`: this vector, and what it leaves of the other. The move constructor
    -- does the same with another vector.
    unfoldable pub assign_move : Bool → Vector A → Vector A → Vector A × Vector A
    assign_move itself other v = if itself then (v, other) else (other, empty_vector blank)

  module _ (blank : A) (finds : ℕ → Bool) where
    -- `__vector(n)`.
    unfoldable pub sized : ℕ → Attempt (Vector A)
    unfolding new_array
    sized n = new_array blank finds n >>= λ b. done record { block = b; sz = n; cap = n }

    -- `__vector(n, val)`.
    unfoldable pub filled : ℕ → A → Attempt (Vector A)
    unfolding fill_items new_array
    filled n x = new_array blank finds n >>= λ new.
        fill_items n 0 x new >>= λ b. done record { block = b; sz = n; cap = n }

    -- `__vector(first, last)`.
    unfoldable pub from_range : ℕ → ℕ → Block A → Attempt (Vector A)
    unfolding copy_range new_array
    from_range start n from = new_array blank finds n >>= λ new.
        copy_range n start 0 from new >>= λ b. done record { block = b; sz = n; cap = n }

    -- `operator=(const __vector&)`, with whether the other is the vector itself.
    unfoldable pub assign : Bool → Vector A → Vector A → Attempt (Vector A)
    unfolding copy
    assign itself other v = if itself then done v else copy blank finds other

    -- `resize(n, val)`.
    unfoldable pub resize_with : ℕ → A → Vector A → Attempt (Vector A)
    unfolding reserve fill_items
    resize_with n x v = (if ltb v.cap n then reserve blank finds n v else done v) >>= λ v'.
        fill_items (n - v'.sz) v'.sz x v'.block >>= λ b. done (record v' { block = b; sz = n })

    -- The room for `n` more.
    unfoldable pub grow_by : ℕ → Vector A → Attempt (Vector A)
    unfolding reserve
    grow_by n v = if ltb v.cap (add64 v.sz n) then reserve blank finds (range_cap n v) v else done v

    -- `insert(pos, first, last)`. One round for each object behind the place, and one more to see
    -- the end, are `sz + 1`.
    unfoldable pub insert_range : ℕ → ℕ → ℕ → Block A → Vector A → Attempt (Vector A)
    unfolding grow_by shift_far copy_range
    insert_range idx start n from v = grow_by n v >>= λ v'.
        shift_far (v'.sz + 1) (sub64 (add64 v'.sz n) 1) (add64 idx n) n v'.block >>= λ b.
        copy_range n start idx from b >>= λ b'. done (record v' { block = b'; sz = add64 v'.sz n })

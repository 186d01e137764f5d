-- ===== src/Cxx/Pointer.antt =====
-- The pointers of kernel/include/libs/libc++/memory. Variables and control blocks have numbers, a
-- block's is its address. A variable that is not constructed, or destroyed, holds a null pointer.
-- No other thread runs, and what the deleter destroys holds no pointer.
pub mod Counts
pub mod Controls
pub mod History
pub mod Operations
pub mod Variables
pub mod Shared
pub mod Weak
use ice.Prelude.{ℕ, zero, Bool, true, false, ◌==◌, if◌then◌else◌, List, [], ◌∷◌}
use ice.Utils.Math.{add64, sub64}

-- How the deleter ends an object, and how a block goes back to the heap.
pub data Ending : Type 0 where
  by_destructor by_delete by_delete_array : Ending

-- The fields of the block, then what was done to its object and to itself.
pub record Control : Type 0 where
  pub obj : ℕ
  pub ref_count : ℕ
  pub weak_count : ℕ
  pub jointly_allocated : Bool
  pub ended : List Ending
  pub freed : List Ending

-- `shared_ptr` and `weak_ptr`.
pub record Pointer : Type 0 where
  pub ptr : ℕ
  pub ctrl : ℕ

pub record Store : Type 0 where
  pub controls : ℕ → Control
  pub shared : ℕ → Pointer
  pub weak : ℕ → Pointer

-- `new __shared_ptr_ctrl_block{}`, with its object.
abbrev pub new_control : Bool → ℕ → Control
new_control jointly obj = record {
  obj = obj;
  ref_count = 1;
  weak_count = 1;
  jointly_allocated = jointly;
  ended = [];
  freed = [];
}

-- The lambda of `__deleter_for`.
abbrev pub deleter : Control → Ending
deleter k = if k.jointly_allocated then by_destructor else by_delete

-- The memory that `__release_weak` deletes.
abbrev pub delete_block : Control → Ending
delete_block k = if k.jointly_allocated then by_delete_array else by_delete

unfoldable pub add_weak : Control → Control
add_weak k = record k { weak_count = add64 k.weak_count 1 }

unfoldable pub add_shared : Control → Control
unfolding add_weak
add_shared k = add_weak (record k { ref_count = add64 k.ref_count 1 })

unfoldable pub release_weak : Control → Control
release_weak k =
    let k' : Control = record k { weak_count = sub64 k.weak_count 1 } in
    if k.weak_count == 1 then record k' { freed = delete_block k ∷ k.freed } else k'

unfoldable pub release_shared : Control → Control
unfolding release_weak
release_shared k =
    let k' : Control = record k { ref_count = sub64 k.ref_count 1 } in
    release_weak (if k.ref_count == 1 then record k' { ended = deleter k ∷ k.ended } else k')

abbrev pub null : Pointer
null = record { ptr = 0; ctrl = 0 }

-- The block of one pointer, with the object at another address.
abbrev pub aliased : Pointer → ℕ → Pointer
aliased p obj = record { ptr = obj; ctrl = p.ctrl }

abbrev pub put {ℓ} : {A : Type ℓ} → (ℕ → A) → ℕ → A → ℕ → A
put f d x j = if j == d then x else f j

-- `if (ctrl) ctrl->f()`.
unfoldable pub touch : Pointer → (Control → Control) → (ℕ → Control) → ℕ → Control
touch p f cs = if p.ctrl == 0 then cs else put cs p.ctrl (f (cs p.ctrl))

-- ===== src/Cxx/Pointer/Shared.antt =====
-- `shared_ptr` of kernel/include/libs/libc++/memory.
use ice.Prelude.{ℕ, Bool, ◌==◌, if◌then◌else◌}
use ice.Cxx.Pointer.{Store, aliased, null, put, touch, new_control, add_shared, release_shared}

-- `shared_ptr(T*)` with false and `make_shared` with true: `new` gives the block at `c`.
unfoldable pub make : Bool → ℕ → ℕ → ℕ → Store → Store
make jointly d obj c s = record s {
  controls = put s.controls c (new_control jointly obj);
  shared = put s.shared d (record { ptr = obj; ctrl = c });
}

-- `__delete`.
unfoldable pub delete : ℕ → Store → Store
unfolding touch
delete d s = record s { controls = touch (s.shared d) release_shared s.controls }

-- `shared_ptr(const shared_ptr&)`.
unfoldable pub copy : ℕ → ℕ → Store → Store
unfolding touch
copy d other s = record s {
  controls = touch (s.shared other) add_shared s.controls;
  shared = put s.shared d (s.shared other);
}

-- `shared_ptr(const shared_ptr<U>&, T*)`.
unfoldable pub copy_aliased : ℕ → ℕ → ℕ → Store → Store
unfolding touch
copy_aliased d other obj s = record s {
  controls = touch (s.shared other) add_shared s.controls;
  shared = put s.shared d (aliased (s.shared other) obj);
}

-- `shared_ptr(shared_ptr<U>&&, T*)`.
unfoldable pub move_aliased : ℕ → ℕ → ℕ → Store → Store
move_aliased d other obj s = record s {
  shared = put (put s.shared d (aliased (s.shared other) obj)) other null;
}

-- `shared_ptr(shared_ptr&&)`.
unfoldable pub move : ℕ → ℕ → Store → Store
move d other s = record s { shared = put (put s.shared d (s.shared other)) other null }

unfoldable pub assign : ℕ → ℕ → Store → Store
unfolding copy delete
assign d other s = if d == other then s else copy d other (delete d s)

unfoldable pub assign_move : ℕ → ℕ → Store → Store
unfolding move delete
assign_move d other s = if d == other then s else move d other (delete d s)

-- `operator=(nullptr_t)`, and the destructor.
unfoldable pub reset : ℕ → Store → Store
unfolding delete
reset d s = let t = delete d s in record t { shared = put t.shared d null }

abbrev pub use_count : ℕ → Store → ℕ
use_count d s = if (s.shared d).ctrl == 0 then 0 else (s.controls (s.shared d).ctrl).ref_count

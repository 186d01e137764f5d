-- ===== src/Cxx/Pointer/Weak.antt =====
-- `weak_ptr` of kernel/include/libs/libc++/memory.
use ice.Prelude.{ℕ, Bool, true, ◌==◌, if◌then◌else◌}
use ice.Utils.Math.{add64}
use ice.Cxx.Pointer.{Store, null, put, touch, add_weak, release_weak}

unfoldable pub delete : ℕ → Store → Store
unfolding touch
delete d s = record s { controls = touch (s.weak d) release_weak s.controls }

-- `weak_ptr(const weak_ptr&)`, also of a different type.
unfoldable pub copy : ℕ → ℕ → Store → Store
unfolding touch
copy d other s = record s {
  controls = touch (s.weak other) add_weak s.controls;
  weak = put s.weak d (s.weak other);
}

-- `weak_ptr(const shared_ptr&)`.
unfoldable pub from_shared : ℕ → ℕ → Store → Store
unfolding touch
from_shared d other s = record s {
  controls = touch (s.shared other) add_weak s.controls;
  weak = put s.weak d (s.shared other);
}

-- `weak_ptr(weak_ptr&&)`, also of a different type.
unfoldable pub move : ℕ → ℕ → Store → Store
move d other s = record s { weak = put (put s.weak d (s.weak other)) other null }

unfoldable pub assign : ℕ → ℕ → Store → Store
unfolding copy delete
assign d other s = if d == other then s else copy d other (delete d s)

unfoldable pub assign_move : ℕ → ℕ → Store → Store
unfolding move delete
assign_move d other s = if d == other then s else move d other (delete d s)

-- `operator=(weak_ptr<U>&&)`.
unfoldable pub assign_move_other_type : ℕ → ℕ → Store → Store
unfolding move delete
assign_move_other_type d other s = move d other (delete d s)

unfoldable pub assign_shared : ℕ → ℕ → Store → Store
unfolding from_shared delete
assign_shared d other s = from_shared d other (delete d s)

-- `operator=(const weak_ptr<U>&)`, which adds nothing to the count.
unfoldable pub assign_other_type : ℕ → ℕ → Store → Store
unfolding delete
assign_other_type d other s = let t = delete d s in record t { weak = put t.weak d (t.weak other) }

-- `reset()`, and the destructor.
unfoldable pub reset : ℕ → Store → Store
unfolding delete
reset d s = let t = delete d s in record t { weak = put t.weak d null }

abbrev pub use_count : ℕ → Store → ℕ
use_count w s = if (s.weak w).ctrl == 0 then 0 else (s.controls (s.weak w).ctrl).ref_count

abbrev pub expired : ℕ → Store → Bool
expired w s = if (s.weak w).ctrl == 0 then true else (s.controls (s.weak w).ctrl).ref_count == 0

-- `lock()` into the variable `d`. The exchange succeeds at once.
unfoldable pub lock : ℕ → ℕ → Store → Store
unfolding add_weak
lock d w s =
    let p = s.weak w in
    let k = s.controls p.ctrl in
    if p.ctrl == 0
    then record s { shared = put s.shared d null }
    else (if k.ref_count == 0 then record s { shared = put s.shared d null } else record s {
      controls = put s.controls p.ctrl (add_weak (record k { ref_count = add64 k.ref_count 1 }));
      shared = put s.shared d p;
    })

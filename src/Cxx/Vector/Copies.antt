-- ===== src/Cxx/Vector/Copies.antt =====
-- The copy constructor of kernel/include/libs/libc++/vector.
use ice.Cxx.Vector.{Vector}

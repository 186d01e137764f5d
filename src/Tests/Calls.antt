-- ===== src/Tests/Calls.antt =====
-- Calls that pass others on, on concrete values.
use ice.Prelude.{true, ◌≡◌, refl, [], ◌∷◌}
use ice.Utils.Math.{fromhh, tohh, ishh}
use ice.Utils.Bitmap.{empty, reassign}
use ice.Cpu.Pic.{disable}
use ice.Memory.Slab.{Run, ok, realloc}
use ice.Memory.Slab
use ice.Memory.Paging.Lifetime.{load, save}
use ice.Memory.Ranges.{fork_pages, forked_global}
use ice.Tests.Pages.{four_pages, offset}
use ice.Tests.Tables.{pagemap}
use ice.Tests.Ranges.{range, shared}

reassign_runs : reassign empty 64 4096 ≡ record { buffer = 64; size = 4096 }
unfolding reassign
reassign_runs = refl

disable_runs : disable ≡ (0xa1, 0xff) ∷ (0x21, 0xff) ∷ []
unfolding disable
disable_runs = refl

-- The value of cr3 leads back to the same table.
load_runs : save offset 0 (load offset 0 pagemap) pagemap ≡ pagemap
unfolding load save tohh fromhh ishh
load_runs = refl

-- `realloc` of a null pointer is `malloc`.
realloc_runs : realloc offset 16 0 48 four_pages ≡ Slab.malloc offset 16 48 four_pages
unfolding realloc
realloc_runs = refl

forked_global_runs : (forked_global 0 range pagemap (shared ∷ [])).locals ≡ range ∷ []
unfolding forked_global
forked_global_runs = refl

fork_pages_runs : fork_pages offset 0 true 2 0 4096 (λ i s. ok tt s) four_pages ≡ ok tt four_pages
unfolding fork_pages
fork_pages_runs = refl

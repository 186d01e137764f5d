-- ===== src/Tests/Searches.antt =====
-- The searches and the reversal of kernel/libs/libc/string.cpp on short texts.
use ice.Prelude.{ℕ, ◌+◌, ◌-◌, ◌≤◌, ◌<◌, ◌^◌, ◌≡◌, ◌⊎◌, refl, arith, Mem, some}
use ice.Utils.Math.{add64, sub64}
use ice.Libc.String.{strstr, strrev}
use ice.Libc.String.Find.{Matches, strstr_lem}
use ice.Libc.String.Reverse.{strrev_lem, strrev_empty}
use ice.Libc.String.Length.{IsString}
use ice.Tests.Strings.{texts, aaa, ab}

strstr_lem_example :
    ((p : ℕ) × (p + 2 ≤ 3)
      × Matches texts 0 16 p 2
      × ((p' : ℕ) → p' < p → p' + 2 ≤ 3 → ¬ Matches texts 0 16 p' 2)
      × (strstr 12 texts 0 16 ≡ some (0 + p)))
    ⊎ (((p' : ℕ) → p' < 4 → p' + 2 ≤ 3 → ¬ Matches texts 0 16 p' 2)
        × (strstr 12 texts 0 16 ≡ some 0))
strstr_lem_example = strstr_lem texts 0 16 3 2 aaa ab 12 (omega arith)

strrev_lem_example :
    (m' : Mem) × (strrev 4 texts 16 ≡ some m')
    × ((k : ℕ) → k < 2 → m' (16 + k) ≡ texts (16 + (2 - 1 - k)))
    × ((a : ℕ) → (a < 16) ⊎ (18 ≤ a) → m' a ≡ texts a)
strrev_lem_example = strrev_lem 4 texts 16 2 ab (omega arith) (omega arith) (omega arith)

empty_text : IsString texts 8 0
empty_text = record { chars = λ k h. absurd (omega arith); ends = refl }

strrev_empty_example :
    (m' : Mem) × (strrev (2 ^ 63 + 1) texts 8 ≡ some m')
    × ((k : ℕ) → k < 2 ^ 64 → m' (add64 8 k) ≡ texts (sub64 8 (k + 1)))
strrev_empty_example = strrev_empty (2 ^ 63 + 1) texts 8 empty_text (omega arith)

-- ===== src/Libc/String/Find.antt =====
-- The searches of kernel/libs/libc/string.cpp: `strstr`, `strchr` and `memchr`.
use ice.Prelude.{
  ℕ, zero, suc, ◌+◌, ◌*◌, ◌-◌, ◌≤◌, ◌<◌, ◌≡◌, ◌≢◌, ◌⊎◌, inl, inr, refl, sym, ap, ◌∙◌, arith, Option,
  some, Mem, ne→==, ==_iff,
}
use native.Mathlib.Decide.{ℕ_discrete, dec_lt}
use ice.Libc.String.{strstr, strstr_loop}
use ice.Libc.String.Length.{IsString}

-- The first `q` characters of the pattern stand at the place `p` of the text.
abbrev pub Matches : Mem → ℕ → ℕ → ℕ → ℕ → Type 0
Matches m str substr p q = (j : ℕ) → j < q → m (str + p + j) ≡ m (substr + j)

module _ (m : Mem) (str substr n k : ℕ) (s : IsString m str n) (t : IsString m substr k) where
  -- The pattern stands at no place before `i`.
  abbrev pub NoneBefore : ℕ → Type 0
  NoneBefore i = (p : ℕ) → p < i → p + k ≤ n → ¬ Matches m str substr p k

  abbrev pub First : Option ℕ → Type 0
  First r =
      ((p : ℕ) × (p + k ≤ n) × Matches m str substr p k × NoneBefore p × (r ≡ some (str + p)))
      ⊎ (NoneBefore (n + 1) × (r ≡ some 0))

  longer :
      (i b : ℕ)
      → Matches m str substr i b
      → m (str + i + b) ≡ m (substr + b)
      → Matches m str substr i (b + 1)
  longer i b h e j l = elim (ℕ_discrete j b) [ yes q ↦ rw q e | no q ↦ h j (omega arith) ]

  strstr_loop-First :
      (f i b at x y : ℕ)
      → at ≡ str + i
      → x ≡ str + i + b
      → y ≡ substr + b
      → i + b ≤ n
      → b ≤ k
      → Matches m str substr i b
      → NoneBefore i
      → (n - i) * (k + 1) + (k - b) < f
      → First (strstr_loop f m at substr x y)
  unfolding strstr_loop
  strstr_loop-First zero i b at x y ea ex ey l h same before fuel = absurd (omega arith)
  strstr_loop-First (suc f) i b at x y ea ex ey l h same before fuel = elim (ℕ_discrete b k) [
    | yes q ↦ inl (
      i,
      omega arith,
      λ j u. same j (omega arith),
      before,
      rw (pattern_end q) (ap (λ r. some r) ea),
    )
    | no short ↦ rw (ne→== (m y) 0 (in_pattern short)) (elim (ℕ_discrete (i + b) n) [
      | yes q ↦ rw (text_end q) (
          inr (
            λ p u w. elim (dec_lt p i) [ yes v ↦ before p v w | no v ↦ absurd (omega arith) ],
            refl,
          ))
      | no inside ↦ rw (ne→== (m x) 0 (in_text inside)) (elim (ℕ_discrete (m x) (m y)) [
        | yes e ↦ rw ((==_iff (m x) (m y)).1 e) (
            strstr_loop-First f i (b + 1) at (x + 1) (y + 1) ea (omega arith) (omega arith)
              (omega arith) (omega arith) (longer i b same (ap m (sym ex) ∙ e ∙ ap m ey)) before
              (omega arith))
        | no ne ↦ rw (ne→== (m x) (m y) ne) (
            strstr_loop-First f (i + 1) 0 (at + 1) (at + 1) substr (omega arith) (omega arith)
              (omega arith) (omega arith) (omega arith) (λ j u. absurd (omega arith))
              (λ p u w v. elim (ℕ_discrete p i) [
                | yes q ↦ ne (ap m (omega arith) ∙ v b (omega arith) ∙ ap m (sym ey))
                | no q ↦ before p (omega arith) w v
              ])
              (less_left inside))
      ])
    ])
  ]
    where
      pattern_end : b ≡ k → m y ≡ 0
      pattern_end q = ap m (omega arith) ∙ t.ends

      in_pattern : b ≢ k → m y ≢ 0
      in_pattern q z = t.chars b (omega arith) (ap m (sym ey) ∙ z)

      text_end : i + b ≡ n → m x ≡ 0
      text_end q = ap m (omega arith) ∙ s.ends

      in_text : i + b ≢ n → m x ≢ 0
      in_text q z = s.chars (i + b) (omega arith) (ap m (omega arith) ∙ z)

      less_left : i + b ≢ n → (n - (i + 1)) * (k + 1) + (k - 0) < f
      less_left q = grind (arith, fuel, one_less)
        where
          one_less : n - i ≡ n - (i + 1) + 1
          one_less = omega arith

  -- `strstr` of strings of `n` and `k` characters ends, with fuel for (n + 1) * (k + 1) rounds. If the
  -- second stands in the first, the result is the first place where it does; otherwise it is a null
  -- pointer, and it stands nowhere in the first.
  pub strstr_lem :
      (fuel : ℕ)
      → (n + 1) * (k + 1) ≤ fuel
      → ((p : ℕ) × (p + k ≤ n)
          × Matches m str substr p k
          × ((p' : ℕ) → p' < p → p' + k ≤ n → ¬ Matches m str substr p' k)
          × (strstr fuel m str substr ≡ some (str + p)))
        ⊎ (((p' : ℕ) → p' < n + 1 → p' + k ≤ n → ¬ Matches m str substr p' k)
            × (strstr fuel m str substr ≡ some 0))
  unfolding strstr
  strstr_lem fuel h =
      strstr_loop-First fuel 0 0 str str substr (omega arith) (omega arith) (omega arith)
        (omega arith) (omega arith) (λ j u. absurd (omega arith)) (λ p u. absurd (omega arith))
        (grind (arith, h))

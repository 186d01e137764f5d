-- ===== src/Terminal/Numbers.antt =====
-- The numbers of kernel/drivers/graphics/terminal.cpp in decimal.
use ice.Prelude.{
  ℕ, zero, suc, ◌+◌, ◌-◌, ◌*◌, ◌/◌, ◌%◌, ◌^◌, ◌<◌, ◌≤◌, ◌≡◌, ◌≢◌, refl, sym, ap, ◌∙◌, arith, true,
  false, ne→==, ==_iff, if◌then◌else◌, List, [], ◌∷◌, some, ℤ, pos, negsuc,
}
use native.Mathlib.Decide.{ℕ_discrete}
use native.Mathlib.Nat.{pow-suc}
use ice.Libc.Stdlib.{is_neg, magnitude}
use ice.Terminal.{
  Terminals, Written, char, write, print, printc, fill_digits, print_digits, digits, printi,
}

-- The number that digits write after a prefix that writes `n`.
abbrev pub decimal_value : ℕ → List ℕ → ℕ
decimal_value n [] = n
decimal_value n (c ∷ cs) = decimal_value (n * 10 + (c - b'0')) cs

-- All are digits.
abbrev pub AllDigits : List ℕ → Type 0
AllDigits [] = Unit
AllDigits (c ∷ cs) = (b'0' ≤ c) × (c ≤ b'9') × AllDigits cs

fill_digits-step :
    (f num : ℕ) (temp : List ℕ)
    → num ≢ 0
    → fill_digits (suc f) num temp ≡ fill_digits f (num / 10) ((num % 10 + b'0') ∷ temp)
unfolding fill_digits
fill_digits-step f num temp n = rw (ne→== num 0 n)

fill_digits-decimal_value :
    (f num : ℕ) (temp : List ℕ)
    → num < 10 ^ f
    → AllDigits temp
    → (ds : List ℕ) × (fill_digits (suc f) num temp ≡ some ds)
      × AllDigits ds
      × (decimal_value 0 ds ≡ decimal_value num temp)
unfolding fill_digits
fill_digits-decimal_value f zero temp h a = (temp, refl, a, refl)
fill_digits-decimal_value zero (suc n) temp h a = absurd (omega arith)
fill_digits-decimal_value (suc f) (suc n) temp h a =
    let num = suc n in
    let (ds, e, b, v) =
      fill_digits-decimal_value f (num / 10) ((num % 10 + b'0') ∷ temp)
        (omega (arith, pow-suc 10 f)) (omega arith, omega arith, a) in
    (
      ds,
      fill_digits-step (suc f) num temp (λ q. omega (arith, q)) ∙ e,
      b,
      v ∙ ap (λ t. decimal_value t temp) (omega arith),
    )

-- The digits of a magnitude up to 2 ^ 31 are found, and write it.
digits-decimal_value :
    (n : ℕ)
    → n ≤ 2 ^ 31
    → (ds : List ℕ) × (digits n ≡ some ds) × AllDigits ds × (decimal_value 0 ds ≡ n)
unfolding digits
digits-decimal_value n h = elim (ℕ_discrete n (2 ^ 31)) [
  | yes e ↦
      let (ds, f, b, v) =
        fill_digits-decimal_value 10 (n / 10) (b'8' ∷ []) (omega arith)
          (omega arith, omega arith, tt) in
      (ds, rw ((==_iff n (2 ^ 31)).1 e) f, b, v ∙ omega arith)
  | no e ↦
      let (ds, f, b, v) = fill_digits-decimal_value 10 n [] (omega arith) tt in
      (ds, rw (ne→== n (2 ^ 31) e) f, b, v)
]

printc-log :
    (c term : ℕ) (s : Terminals)
    → c ≢ 0
    → term ≢ 0
    → s.has_response ≡ true
    → printc c term s ≡ record s { log = char term c ∷ s.log }
unfolding printc print write
printc-log c term s h n r = rw (ne→== c 0 h, ne→== term 0 n, r)

-- What `printc` of digits leaves.
print_digits-log :
    (ds : List ℕ) (term : ℕ) (s : Terminals)
    → AllDigits ds
    → term ≢ 0
    → s.has_response ≡ true
    → print_digits ds term s ≡ record s { log = write term ds s.log }
unfolding print_digits write
print_digits-log [] term s a n r = refl
print_digits-log (c ∷ cs) term s a n r =
    ap (print_digits cs term) (printc-log c term s (λ e. omega (arith, e, a.0)) n r)
    ∙ print_digits-log cs term (record s { log = char term c ∷ s.log }) a.2 n r

-- The log after the sign.
abbrev pub sign_log : ℤ → Terminals → List Written
sign_log num s = if is_neg num then char s.main_term b'-' ∷ s.log else s.log

signed-log :
    (num : ℤ) (s : Terminals)
    → s.main_term ≢ 0
    → s.has_response ≡ true
    → (if is_neg num then printc b'-' s.main_term s else s) ≡ record s { log = sign_log num s }
signed-log (pos n) s m r = refl
signed-log (negsuc n) s m r = printc-log b'-' s.main_term s (λ e. omega (arith, e)) m r

unsigned_zero : (num : ℤ) → magnitude num ≡ 0 → is_neg num ≡ false
unsigned_zero (pos n) e = refl
unsigned_zero (negsuc n) e = absurd (omega (arith, e))

-- On terminals that answer, `printi` of a number of magnitude at most 2 ^ 31, so of every `int`,
-- ends. It writes a minus sign to the main terminal if the number is negative, and then to `term`
-- decimal digits that write the magnitude.
pub printi_lem :
    (num : ℤ) (term : ℕ) (s : Terminals)
    → magnitude num ≤ 2 ^ 31
    → term ≢ 0
    → s.main_term ≢ 0
    → s.has_response ≡ true
    → (ds : List ℕ) × (printi num term s ≡ some (record s { log = write term ds (sign_log num s) }))
      × AllDigits ds
      × (decimal_value 0 ds ≡ magnitude num)
unfolding printi write
printi_lem num term s h n m r = elim (ℕ_discrete (magnitude num) 0) [
  | yes e ↦ (
    b'0' ∷ [],
    rw ((==_iff (magnitude num) 0).1 e, unsigned_zero num e)
        (ap some (printc-log b'0' term s (λ q. omega (arith, q)) n r)),
    (omega arith, omega arith, tt),
    sym e,
  )
  | no e ↦
      let (ds, f, b, v) = digits-decimal_value (magnitude num) h in
      (
        ds,
        rw (ne→== (magnitude num) 0 e, f)
            (ap some (
              ap (print_digits ds term) (signed-log num s m r)
              ∙ print_digits-log ds term (record s { log = sign_log num s }) b n r)),
        b,
        v,
      )
]

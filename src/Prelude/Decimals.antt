-- ===== src/Prelude/Decimals.antt =====
-- Reading back a number that was printed.
use Prim.Native.Char.{Char, code}
use Prim.Native.Nat.{ℕ, zero, suc, ◌+◌, ◌*◌, ◌/◌, ◌%◌, ◌^◌, ◌<◌, ◌≤◌}
use Prim.Native.String.{String}
use mathlib.Core.Path.{◌≡◌, refl, sym, ap, ◌∙◌}
use mathlib.Core.Bool.{Bool, true, false, ◌&&◌}
use mathlib.Core.Option.{Option, some}
use native.Mathlib.Omega.{arith}
use data_nexus.Prelude.Tests.{ltb, leb, nat_eq, ◌==◌, Bool-cases}
use data_nexus.Prelude.Text.{all_codes, all_codes_mono}
use data_nexus.Prelude.Strip.{strip_keeps, no_space, is_space}
use mathlib.Core.Logic.{inl, inr}
use data_nexus.Prelude.Numbers.{ℤ, digit_char, digits, decimal, digit_value, scan, signed, int_of}

code-digit_char : (d : ℕ) → d < 10 → code (digit_char d) ≡ 48 + d
unfolding digit_char
code-digit_char zero h = refl
code-digit_char (suc zero) h = refl
code-digit_char (suc (suc zero)) h = refl
code-digit_char (suc (suc (suc zero))) h = refl
code-digit_char (suc (suc (suc (suc zero)))) h = refl
code-digit_char (suc (suc (suc (suc (suc zero))))) h = refl
code-digit_char (suc (suc (suc (suc (suc (suc zero)))))) h = refl
code-digit_char (suc (suc (suc (suc (suc (suc (suc zero))))))) h = refl
code-digit_char (suc (suc (suc (suc (suc (suc (suc (suc zero)))))))) h = refl
code-digit_char (suc (suc (suc (suc (suc (suc (suc (suc (suc zero))))))))) h = refl
code-digit_char (suc (suc (suc (suc (suc (suc (suc (suc (suc (suc d)))))))))) h =
    absurd (omega arith)

digit_value-digit_char :
    (unicode : ℕ → Option ℕ) (d : ℕ) → d < 10 → digit_value unicode (code (digit_char d)) ≡ some d
unfolding digit_value
digit_value-digit_char unicode d h = rw (code-digit_char d h) (ground arith)

digits_more :
    (fuel n : ℕ) (out : String)
    → 0 < n
    → digits (suc fuel) n out ≡ digits fuel (n / 10) (String.◌∷◌ (digit_char (n % 10)) out)
unfolding digits
digits_more fuel n out h = let more : ltb 0 n ≡ true = ground arith in rw (digits, more) refl

digits_end : (fuel : ℕ) (out : String) → digits fuel 0 out ≡ out
unfolding digits
digits_end zero out = refl
digits_end (suc fuel) out = refl

module _ (unicode : ℕ → Option ℕ) where
  scan_value :
      (c : Char) (s : String) (n k : ℕ) (after : Bool) {d : ℕ}
      → digit_value unicode (code c) ≡ some d
      → scan unicode (String.◌∷◌ c s) n k after ≡ scan unicode s (n * 10 + d) (suc k) true
  unfolding scan
  scan_value c s n k after h = rw (scan, h) refl

  -- Reading the last digit of a number after the digits before it gives the number.
  scan_last :
      (n k : ℕ) (out : String) (after : Bool)
      → scan unicode (String.◌∷◌ (digit_char (n % 10)) out) (n / 10) k after
        ≡ scan unicode out n (suc k) true
  scan_last n k out after =
      let whole : n / 10 * 10 + n % 10 ≡ n = omega arith in
      scan_value (digit_char (n % 10)) out (n / 10) k after
        (digit_value-digit_char unicode (n % 10) (omega arith))
      ∙ rw whole refl

  pub scan-digits :
      (fuel n limit : ℕ) (out : String)
      → 0 < n
      → n ≤ fuel
      → n < 10 ^ limit
      → (k : ℕ) × (k ≤ limit)
        × (scan unicode (digits fuel n out) 0 0 false ≡ scan unicode out n k true)
  scan-digits zero n limit out pos le lt = absurd (omega arith)
  scan-digits (suc fuel) n zero out pos le lt = absurd (omega arith)
  scan-digits (suc fuel) n (suc limit) out pos le lt =
      let before = String.◌∷◌ (digit_char (n % 10)) out in
      elim (Bool-cases (ltb n 10)) [
        | inl small ↦
            let last : n / 10 ≡ 0 = ground arith in
            (
              1,
              omega arith,
              rw (digits_more fuel n out pos, last, digits_end fuel before)
                  (ap (λ m. scan unicode before m 0 false) (sym last) ∙ scan_last n 0 out false),
            )
        | inr large ↦
            let (k, few, read) =
              scan-digits fuel (n / 10) limit before (ground arith) (ground arith) (ground arith) in
            (suc k, omega arith, rw (digits_more fuel n out pos) (read ∙ scan_last n k out true))
      ]

abbrev pub is_digit : ℕ → Bool
is_digit c = leb b'0' c && leb c b'9'

all_codes-digit_char :
    (d : ℕ) (out : String)
    → d < 10
    → all_codes is_digit out ≡ true
    → all_codes is_digit (String.◌∷◌ (digit_char d) out) ≡ true
unfolding all_codes
all_codes-digit_char d out small h = rw (all_codes, code-digit_char d small, h) (ground arith)

all_codes-digits :
    (fuel n : ℕ) (out : String)
    → all_codes is_digit out ≡ true
    → all_codes is_digit (digits fuel n out) ≡ true
unfolding digits
all_codes-digits zero n out h = h
all_codes-digits (suc fuel) n out h = elim (Bool-cases (ltb 0 n)) [
  | inl more ↦
      rw (digits, more)
        (all_codes-digits fuel (n / 10) _ (all_codes-digit_char (n % 10) out (omega arith) h))
  | inr done ↦ rw (digits, done) h
]

-- The print of a number consists of digits.
pub all_codes-decimal : (n : ℕ) → all_codes is_digit (decimal n) ≡ true
unfolding decimal all_codes
all_codes-decimal zero = refl
all_codes-decimal (suc m) = all_codes-digits (suc m) (suc m) "" refl

no_space-digit : (s : String) → all_codes is_digit s ≡ true → all_codes no_space s ≡ true
unfolding is_space
no_space-digit s = all_codes_mono is_digit no_space (λ c h. ground arith) s

signed-digits :
    (unicode : ℕ → Option ℕ) (s : String) {n : ℕ}
    → all_codes is_digit s ≡ true
    → scan unicode s 0 0 false ≡ some n
    → signed unicode s ≡ some (ℤ.pos n)
unfolding signed scan all_codes
signed-digits unicode String.[] h read = absurd cc
signed-digits unicode (String.◌∷◌ c s) h read =
    let minus : (code c == b'-') ≡ false = ground arith in
    let plus : (code c == b'+') ≡ false = ground arith in rw (signed, minus, plus, read) refl

scan_zero : (unicode : ℕ → Option ℕ) → scan unicode "0" 0 0 false ≡ some 0
unfolding scan
scan_zero unicode = refl

scan_end : (unicode : ℕ → Option ℕ) (n k : ℕ) → k ≤ 4300 → scan unicode "" n k true ≡ some n
unfolding scan
scan_end unicode n k few = ground arith

scan-decimal :
    (unicode : ℕ → Option ℕ) (n limit : ℕ)
    → limit ≤ 4300
    → n < 10 ^ limit
    → scan unicode (decimal n) 0 0 false ≡ some n
unfolding decimal
scan-decimal unicode zero limit few small = scan_zero unicode
scan-decimal unicode (suc m) limit few small =
    let (k, fits, read) =
      scan-digits unicode (suc m) (suc m) limit "" (omega arith) (omega arith) small in
    read ∙ scan_end unicode (suc m) k (omega arith)

pub int_of-decimal :
    (unicode : ℕ → Option ℕ) (n limit : ℕ)
    → limit ≤ 4300
    → n < 10 ^ limit
    → int_of unicode (decimal n) ≡ some (ℤ.pos n)
unfolding int_of
int_of-decimal unicode n limit few small =
    let plain = all_codes-decimal n in
    rw (strip_keeps (decimal n) (no_space-digit (decimal n) plain))
      (signed-digits unicode (decimal n) plain (scan-decimal unicode n limit few small))

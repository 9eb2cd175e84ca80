-- ===== src/Prelude/Text.antt =====
-- Texts as the source builds them: formatted strings, suffixes, separators and prefix tests.
use Prim.Native.Nat.{ℕ, zero, suc, ◌+◌, ◌-◌, Ordering}
use Prim.Native.Char.{code}
use Prim.Native.String
use Prim.Native.String.{String}
use mathlib.Core.Path.{◌≡◌, refl}
use native.Mathlib.Omega.{arith}
use mathlib.Core.Bool.{Bool, true, false, ◌&&◌}
use mathlib.Core.List.{List, [], ◌∷◌}
use text.Mathlib.Text.{starts_with}
use data_nexus.Prelude.Tests.{if◌then◌else◌, leb, nat_beq}

-- The pieces of an f-string, or `"".join(pieces)`.
unfoldable pub concat : List String → String
concat [] = String.[]
concat (s ∷ rest) = String.◌++◌ s (concat rest)

unfoldable pub drop_chars : ℕ → String → String
drop_chars zero s = s
drop_chars (suc n) String.[] = String.[]
drop_chars (suc n) (String.◌∷◌ c s) = drop_chars n s

-- `s[-4:]`
unfoldable pub last4 : String → String
unfolding drop_chars
last4 s = drop_chars (String.count s - 4) s

-- `a <= b` on texts, by code points
abbrev pub str_le : String → String → Bool
str_le a b = elim (String.compare a b) [ Ordering.gt ↦ false | _ ↦ true ]

abbrev pub is_blank : String → Bool
is_blank String.[] = true
is_blank (String.◌∷◌ c s) = false

unfoldable pub insert_sorted : String → List String → List String
insert_sorted a [] = a ∷ []
insert_sorted a (b ∷ l) = if str_le a b then a ∷ b ∷ l else b ∷ insert_sorted a l

-- `sorted(texts)`
unfoldable pub sorted : List String → List String
unfolding insert_sorted
sorted [] = []
sorted (a ∷ l) = insert_sorted a (sorted l)

replace_from : ℕ → String → String → String → String
replace_from skip old fresh String.[] = String.[]
replace_from (suc skip) old fresh (String.◌∷◌ c s) = replace_from skip old fresh s
replace_from zero old fresh (String.◌∷◌ c s) =
    let after = replace_from (String.count old - 1) old fresh s in
    let next = replace_from zero old fresh s in
    if starts_with (String.◌∷◌ c s) old then String.◌++◌ fresh after else String.◌∷◌ c next

-- `s.replace(old, fresh)`, for an `old` that is not empty
unfoldable pub replace : String → String → String → String
unfolding replace_from
replace old fresh s = replace_from zero old fresh s

-- One code point under `str.lower`. Only ASCII prefixes are tested after it, and no other code
-- point lowers to a letter of those prefixes.
abbrev pub lower : ℕ → ℕ
lower c = if leb b'A' c && leb c b'Z' then c + 32 else c

-- `s.lower().startswith(prefix)`
unfoldable pub lower_starts_with : String → String → Bool
lower_starts_with s String.[] = true
lower_starts_with String.[] (String.◌∷◌ p ps) = false
lower_starts_with (String.◌∷◌ c s) (String.◌∷◌ p ps) =
    nat_beq (lower (code c)) (code p) && lower_starts_with s ps

-- A test of every code point of a text.
unfoldable pub all_codes : (ℕ → Bool) → String → Bool
all_codes p String.[] = true
all_codes p (String.◌∷◌ c s) = p (code c) && all_codes p s

pub all_codes_mono :
    (p q : ℕ → Bool)
    → ((c : ℕ) → p c ≡ true → q c ≡ true)
    → (s : String) → all_codes p s ≡ true
    → all_codes q s ≡ true
unfolding all_codes
all_codes_mono p q h String.[] e = refl
all_codes_mono p q h (String.◌∷◌ c s) e =
    let head : p (code c) ≡ true = ground arith in
    rw (h (code c) head, all_codes_mono p q h s (ground arith)) refl

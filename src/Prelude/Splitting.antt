-- ===== src/Prelude/Splitting.antt =====
-- The parts of a text at its dots.
use Prim.Native.Char.{Char, char, code}
use Prim.Native.Nat.{ℕ}
use Prim.Native.String
use Prim.Native.String.{String}
use mathlib.Core.Path.{◌≡◌, refl, sym, ap, ◌∙◌}
use mathlib.Core.Bool.{Bool, true, false, not}
use mathlib.Core.Option.{Option, some}
use native.Mathlib.Omega.{arith}
use text.Mathlib.TextLemmas.{cons-append, nil-append}
use data_nexus.Prelude.Tests.{nat_eq, nat_beq_iff, ◌==◌}
use data_nexus.Prelude.Text.{all_codes}
use data_nexus.Prelude.Numbers.{cut, split3}

-- A code point that is not the separator.
abbrev pub other_than : ℕ → ℕ → Bool
other_than sep c = not (c == sep)

cons_text :
    (c : Char) (rest : String) → String.◌++◌ (String.◌∷◌ c String.[]) rest ≡ String.◌∷◌ c rest
cons_text c rest = cons-append c String.[] rest ∙ rw (nil-append rest) refl

cut_here : (c : Char) (rest : String) → cut (code c) (String.◌∷◌ c rest) ≡ ("", some rest)
unfolding cut
cut_here c rest =
    let same : (code c == code c) ≡ true = ground (arith, nat_beq_iff (code c) (code c)) in
    rw (cut, same) refl

cut-cons :
    (sep : ℕ) (c : Char) (s : String) {a : String} {b : Option String}
    → (code c == sep) ≡ false
    → cut sep s ≡ (a, b)
    → cut sep (String.◌∷◌ c s) ≡ (String.◌∷◌ c a, b)
unfolding cut
cut-cons sep c s keep h = rw (cut, h, keep) refl

-- A text without the separator, before the separator, is what is cut off.
pub cut-append :
    (c : Char) (s rest : String)
    → all_codes (other_than (code c)) s ≡ true
    → cut (code c) (String.◌++◌ s (String.◌++◌ (String.◌∷◌ c String.[]) rest)) ≡ (s, some rest)
unfolding all_codes
cut-append sep String.[] rest h =
    rw (nil-append (String.◌++◌ (String.◌∷◌ sep String.[]) rest), cons_text sep rest)
      (cut_here sep rest)
cut-append sep (String.◌∷◌ c s) rest h =
    let keep : (code c == code sep) ≡ false = ground arith in
    let after = String.◌++◌ (String.◌∷◌ sep String.[]) rest in
    rw (cons-append c s after)
      (cut-cons (code sep) c (String.◌++◌ s after) keep (cut-append sep s rest (ground arith)))

-- Two texts without a dot and any third one come back from their join.
pub split3-join :
    (a b c : String)
    → all_codes (other_than b'.') a ≡ true
    → all_codes (other_than b'.') b ≡ true
    → split3 (String.◌++◌ a (String.◌++◌ "." (String.◌++◌ b (String.◌++◌ "." c)))) ≡ some (a, b, c)
unfolding split3
split3-join a b c ha hb =
    let dot = char b'.' tt in
    rw (cut-append dot a (String.◌++◌ b (String.◌++◌ "." c)) ha, cut-append dot b c hb) refl

-- Texts that are joined at a separator which the first parts do not have are equal part by part.
pub join_inj :
    (c : Char) (s t rest more : String)
    → all_codes (other_than (code c)) s ≡ true
    → all_codes (other_than (code c)) t ≡ true
    → String.◌++◌ s (String.◌++◌ (String.◌∷◌ c String.[]) rest)
      ≡ String.◌++◌ t (String.◌++◌ (String.◌∷◌ c String.[]) more)
    → (s ≡ t) × (rest ≡ more)
join_inj c s t rest more hs ht e =
    let parts : ◌≡◌ {A = String × Option String} (s, some rest) (t, some more) =
      sym (cut-append c s rest hs) ∙ (ap (cut (code c)) e ∙ cut-append c t more ht) in
    let tails : some rest ≡ some more = ap (λ x. x.1) parts in (ap (λ x. x.0) parts, cc)

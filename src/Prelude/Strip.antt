-- ===== src/Prelude/Strip.antt =====
-- `str.strip` of Python.
use Prim.Native.Char.{code}
use Prim.Native.Nat.{ℕ}
use Prim.Native.String.{String}
use mathlib.Core.Path.{◌≡◌, refl}
use mathlib.Core.Bool.{Bool, true, false, ◌&&◌, ◌||◌, not}
use native.Mathlib.Omega.{arith}
use data_nexus.Prelude.Tests.{if◌then◌else◌, leb, nat_eq, ◌==◌}
use data_nexus.Prelude.Text.{all_codes, is_blank}

-- `str.isspace` of one code point
unfoldable pub is_space : ℕ → Bool
is_space c =
    leb 9 c && leb c 13
    || leb 28 c && leb c 32
    || c == 133
    || c == 160
    || c == 5760
    || leb 8192 c && leb c 8202
    || c == 8232
    || c == 8233
    || c == 8239
    || c == 8287
    || c == 12288

strip_left : String → String
strip_left String.[] = String.[]
strip_left (String.◌∷◌ c s) =
    let rest = strip_left s in if is_space (code c) then rest else String.◌∷◌ c s

keep_right : String → String → String
keep_right String.[] rest = rest
keep_right (String.◌∷◌ d t) rest = rest

-- Drops the spaces at the end: a space stays only before something that stays.
strip_right : String → String
strip_right String.[] = String.[]
strip_right (String.◌∷◌ c s) =
    let rest = strip_right s in
    if is_blank rest && is_space (code c) then String.[] else String.◌∷◌ c rest

-- `s.strip()`
unfoldable pub strip : String → String
unfolding strip_left strip_right is_space
strip s = strip_right (strip_left s)

abbrev pub no_space : ℕ → Bool
no_space c = not (is_space c)

strip_left_keeps : (s : String) → all_codes no_space s ≡ true → strip_left s ≡ s
unfolding strip_left all_codes
strip_left_keeps String.[] h = refl
strip_left_keeps (String.◌∷◌ c s) h =
    let shut : is_space (code c) ≡ false = ground arith in rw shut refl

strip_right_keeps : (s : String) → all_codes no_space s ≡ true → strip_right s ≡ s
unfolding strip_right all_codes
strip_right_keeps String.[] h = refl
strip_right_keeps (String.◌∷◌ c s) h =
    let shut : is_space (code c) ≡ false = ground arith in
    let rest : strip_right s ≡ s = strip_right_keeps s (ground arith) in
    rw (strip_right, rest, shut) (ground arith)

pub strip_keeps : (s : String) → all_codes no_space s ≡ true → strip s ≡ s
unfolding strip
strip_keeps s h = rw (strip_left_keeps s h) (strip_right_keeps s h)

-- `s.rstrip("/")`
unfoldable pub rstrip_slash : String → String
rstrip_slash String.[] = String.[]
rstrip_slash (String.◌∷◌ c s) =
    let rest = rstrip_slash s in
    if is_blank rest && code c == b'/' then String.[] else String.◌∷◌ c rest

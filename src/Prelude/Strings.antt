-- ===== src/Prelude/Strings.antt =====
-- Go strings that are taken apart as ids and paths: the characters of a text are its bytes.
use Prim.Native.Char.{code}
use Prim.Native.Nat.{ℕ, zero, suc, ◌+◌, ◌≤◌}
use Prim.Native.String.{String}
use mathlib.Core.Bool.{Bool, true, false, ◌||◌, ◌&&◌}
use mathlib.Core.Option.{Option, none, some}
use mathlib.Core.Path.{◌≡◌, refl, ap}
use native.Mathlib.Omega.{arith}
use text.Mathlib.Text.{◌==◌ as str_eq}
use text.Mathlib.TextEquality.{eq_iff}
use tracelab.Prelude.Tests.{Bool-cases, ◌==◌, leb, if◌then◌else◌}
use mathlib.Core.Logic.{inl, inr}

-- `len(s)`
abbrev pub text_length : String → ℕ
text_length String.[] = 0
text_length (String.◌∷◌ c s) = suc (text_length s)

-- `s[:n]`
abbrev pub text_take : ℕ → String → String
text_take zero s = ""
text_take (suc n) String.[] = ""
text_take (suc n) (String.◌∷◌ c s) = String.◌∷◌ c (text_take n s)

-- `s + t`
abbrev pub text_append : String → String → String
text_append String.[] t = t
text_append (String.◌∷◌ c s) t = String.◌∷◌ c (text_append s t)

-- `strings.Repeat(s, n)`
abbrev pub repeat_text : ℕ → String → String
repeat_text zero s = ""
repeat_text (suc n) s = text_append s (repeat_text n s)

-- The characters that pass a test, in their order.
abbrev pub text_filter : (ℕ → Bool) → String → String
text_filter p String.[] = ""
text_filter p (String.◌∷◌ c s) =
    if p (code c) then String.◌∷◌ c (text_filter p s) else text_filter p s

pub text_length-take : (n : ℕ) (s : String) → n ≤ text_length s → text_length (text_take n s) ≡ n
text_length-take zero s h = refl
text_length-take (suc n) String.[] h = ground (arith, h)
text_length-take (suc n) (String.◌∷◌ c s) h = ap suc (text_length-take n s (omega (arith, h)))

pub text_length-append :
    (s t : String) → text_length (text_append s t) ≡ text_length s + text_length t
text_length-append String.[] t = omega arith
text_length-append (String.◌∷◌ c s) t = omega (arith, text_length-append s t)

pub text_length-repeat : (n : ℕ) → text_length (repeat_text n "a") ≡ n
text_length-repeat zero = refl
text_length-repeat (suc n) = ap suc (text_length-repeat n)

pub str_eq_refl : (s : String) → str_eq s s ≡ true
str_eq_refl s = (eq_iff s s).1 refl

pub nonempty_of_length : (n : ℕ) (s : String) → text_length s ≡ suc n → str_eq s "" ≡ false
nonempty_of_length n s h = elim (Bool-cases (str_eq s "")) [
  | inl e ↦
      let len : text_length s ≡ 0 = ap text_length ((eq_iff s "").0 e) in ground (arith, len, h)
  | inr e ↦ e
]

-- `strings.CutPrefix(s, prefix)`
abbrev pub cut_prefix : String → String → Option String
cut_prefix String.[] s = some s
cut_prefix (String.◌∷◌ p ps) String.[] = none
cut_prefix (String.◌∷◌ p ps) (String.◌∷◌ c s) = if code p == code c then cut_prefix ps s else none

abbrev pub text_any : (ℕ → Bool) → String → Bool
text_any p String.[] = false
text_any p (String.◌∷◌ c s) = p (code c) || text_any p s

-- `unicode.IsSpace`
abbrev pub is_space : ℕ → Bool
is_space c =
    (leb 9 c && leb c 13)
    || c == 0x20
    || c == 0x85
    || c == 0xA0
    || c == 0x1680
    || (leb 0x2000 c && leb c 0x200A)
    || c == 0x2028
    || c == 0x2029
    || c == 0x202F
    || c == 0x205F
    || c == 0x3000

-- `strings.TrimSpace`
abbrev pub trim_left : String → String
trim_left String.[] = ""
trim_left (String.◌∷◌ c s) =
    let rest = trim_left s in if is_space (code c) then rest else String.◌∷◌ c s

abbrev pub trim_right : String → String
trim_right String.[] = ""
trim_right (String.◌∷◌ c s) =
    let rest = trim_right s in if str_eq rest "" && is_space (code c) then "" else String.◌∷◌ c rest

abbrev pub trim_space : String → String
trim_space s = trim_right (trim_left s)

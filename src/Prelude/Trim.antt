-- ===== src/Prelude/Trim.antt =====
-- `strings.TrimSpace` on a list of code points.
use Prim.Native.Nat.{ℕ}
use mathlib.Core.Bool.{Bool, true, false, ◌&&◌}
use mathlib.Core.List.{[], ◌∷◌, ◌++◌}
use mathlib.Core.Path.{◌≡◌, refl}
use tracelab.Prelude.Strings.{is_space}
use tracelab.Prelude.Tests.{if◌then◌else◌}
use tracelab.Prelude.Text.{Bytes}

abbrev pub is_nil : Bytes → Bool
is_nil [] = true
is_nil (c ∷ cs) = false

abbrev pub trim_front : Bytes → Bytes
trim_front [] = []
trim_front (c ∷ cs) = let rest = trim_front cs in if is_space c then rest else c ∷ cs

abbrev pub trim_back : Bytes → Bytes
trim_back [] = []
trim_back (c ∷ cs) = let rest = trim_back cs in if is_nil rest && is_space c then [] else c ∷ rest

abbrev pub trim : Bytes → Bytes
trim s = trim_back (trim_front s)

pub is_nil-append : (xs : Bytes) (y : ℕ) (ys : Bytes) → is_nil (xs ++ y ∷ ys) ≡ false
is_nil-append [] y ys = refl
is_nil-append (x ∷ xs) y ys = refl

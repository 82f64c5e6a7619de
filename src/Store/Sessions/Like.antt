-- ===== src/Store/Sessions/Like.antt =====
-- internal/store/sqlite.go: the LIKE of SQLite, which filters the sessions by a part of their id.
use mathlib.Core.Path.{fun_ext}
use tracelab.Prelude.{
  ℕ, ◌+◌, ◌≡◌, refl, ap, Bool, true, false, ◌&&◌, ◌||◌, List, [], ◌∷◌, ◌++◌, Bytes, String, codes,
  leb, ◌==◌, if◌then◌else◌, any, arith,
}

-- ASCII letters in lower case.
abbrev pub fold : ℕ → ℕ
fold c = if leb b'A' c && leb c b'Z' then c + 32 else c

abbrev pub suffixes : Bytes → List Bytes
suffixes [] = [] ∷ []
suffixes (c ∷ cs) = (c ∷ cs) ∷ suffixes cs

abbrev is_empty : Bytes → Bool
is_empty [] = true
is_empty (c ∷ cs) = false

-- One character of the pattern that is no percent sign; the underscore stands for any.
abbrev like_one : ℕ → (Bytes → Bool) → Bytes → Bool
like_one p next [] = false
like_one p next (c ∷ cs) = (p == b'_' || fold p == fold c) && next cs

-- `? LIKE pattern`, without ESCAPE.
unfoldable pub like : Bytes → Bytes → Bool
like [] s = is_empty s
like (p ∷ ps) s =
    let next = like ps in if p == b'%' then any next (suffixes s) else like_one p next s

-- `"%" + filter + "%"`
abbrev pub around : String → Bytes
around filter = b'%' ∷ (codes filter ++ b'%' ∷ [])

-- The text begins with the other, whatever the case of its letters; and it has it somewhere in it.
abbrev pub begins : Bytes → Bytes → Bool
begins [] s = true
begins (p ∷ ps) [] = false
begins (p ∷ ps) (c ∷ cs) = fold p == fold c && begins ps cs

abbrev pub contains : String → String → Bool
contains part s = any (begins (codes part)) (suffixes (codes s))

abbrev pub is_wild : ℕ → Bool
is_wild c = c == b'%' || c == b'_'

any_end : (s : Bytes) → any is_empty (suffixes s) ≡ true
any_end [] = refl
any_end (c ∷ cs) = any_end cs

like-begins : (ps s : Bytes) → any is_wild ps ≡ false → like (ps ++ b'%' ∷ []) s ≡ begins ps s
unfolding like
like-begins [] s h = any_end s
like-begins (p ∷ ps) [] h = ground (arith, h)
like-begins (p ∷ ps) (c ∷ cs) h =
    let rest = like-begins ps cs (ground (arith, h)) in
    let percent : (p == b'%') ≡ false = ground (arith, h) in
    let score : (p == b'_') ≡ false = ground (arith, h) in rw (percent, score, rest) refl

begins_nil : (s : Bytes) → any (begins []) (suffixes s) ≡ true
begins_nil [] = refl
begins_nil (c ∷ cs) = refl

pub contains_nil : (s : String) → contains "" s ≡ true
contains_nil s = begins_nil (codes s)

-- A filter without wildcards passes the ids that contain it, whatever the case of their letters.
pub like_lem :
    (part s : String)
    → any is_wild (codes part) ≡ false
    → like (around part) (codes s) ≡ contains part s
unfolding like
like_lem part s h =
    ap (λ test. any test (suffixes (codes s))) (fun_ext (λ t. like-begins (codes part) t h))

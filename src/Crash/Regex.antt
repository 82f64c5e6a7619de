-- ===== src/Crash/Regex.antt =====
-- The regular expressions of Go's `regexp` that `internal/crash/detect.go` uses.
--
-- A text is the list of its code points. `rests` lists what may be left behind a match at the start of a
-- text, the match that Go prefers first.
use tracelab.Prelude.{
  ℕ, zero, suc, ◌+◌, ◌-◌, Bool, true, false, not, ◌&&◌, ◌||◌, List, [], ◌∷◌, ◌++◌, Bytes, String,
  codes, ltb, leb, ◌==◌, if◌then◌else◌, length, take, filter,
}

pub data Re : Type 0 where
  -- One character of a class.
  one : (ℕ → Bool) → Re
  seq : Re → Re → Re
  alt : Re → Re → Re
  -- As often as possible.
  many : Re → Re
  empty : Re
  -- `\b` behind a word character, and `$` under `(?m)`.
  word_end : Re
  line_end : Re

abbrev pub is_digit : ℕ → Bool
is_digit c = leb b'0' c && leb c b'9'

abbrev pub is_word : ℕ → Bool
is_word c = is_digit c || (leb b'A' c && leb c b'Z') || (leb b'a' c && leb c b'z') || c == b'_'

-- `\s`
abbrev pub is_blank : ℕ → Bool
is_blank c = c == 9 || c == 10 || c == 12 || c == 13 || c == 32

abbrev collect : (Bytes → List Bytes) → List Bytes → List Bytes
collect f [] = []
collect f (s ∷ ss) = f s ++ collect f ss

-- Each round takes a character at least, so that the length of the text is fuel enough.
abbrev star : ℕ → (Bytes → List Bytes) → Bytes → List Bytes
star zero m s = s ∷ []
star (suc fuel) m s =
    collect (star fuel m) (filter (λ (t : Bytes). ltb (length t) (length s)) (m s)) ++ s ∷ []

abbrev rests_one : (ℕ → Bool) → Bytes → List Bytes
rests_one p [] = []
rests_one p (c ∷ cs) = if p c then cs ∷ [] else []

abbrev is_boundary : (ℕ → Bool) → Bytes → Bool
is_boundary p [] = true
is_boundary p (c ∷ cs) = p c

unfoldable pub rests : Re → Bytes → List Bytes
rests (one p) s = rests_one p s
rests (seq a b) s = collect (rests b) (rests a s)
rests (alt a b) s = rests a s ++ rests b s
rests (many r) s = star (length s) (rests r) s
rests empty s = s ∷ []
rests word_end s = if is_boundary (λ c. not (is_word c)) s then s ∷ [] else []
rests line_end s = if is_boundary (λ c. c == 10) s then s ∷ [] else []

-- A character, a text, and one or more.
abbrev pub char : ℕ → Re
char c = one (λ d. d == c)

abbrev pub not_char : ℕ → Re
not_char c = one (λ d. not (d == c))

abbrev chars : Bytes → Re
chars [] = empty
chars (c ∷ cs) = seq (char c) (chars cs)

abbrev pub text : String → Re
text s = chars (codes s)

abbrev pub some_of : Re → Re
some_of r = seq r (many r)

abbrev pub optional : Re → Re
optional r = alt r empty

abbrev pub digits : Re
digits = some_of (one is_digit)

abbrev pub blanks : Re
blanks = many (one is_blank)

abbrev pub non_blank : Re
non_blank = one (λ c. not (is_blank c))

-- `.*`
abbrev pub any_chars : Re
any_chars = many (not_char 10)

abbrev is_cons : List Bytes → Bool
is_cons [] = false
is_cons (s ∷ ss) = true

-- A match at the start of the text.
abbrev pub match_here : Re → Bytes → Bool
match_here r s = is_cons (rests r s)

-- `MatchString`
unfoldable pub match_string : Re → Bytes → Bool
unfolding rests
match_string r [] = match_here r []
match_string r (c ∷ cs) = match_here r (c ∷ cs) || match_string r cs

-- `MatchString` of an expression that begins with `(?m)^`: `bol` says that a line begins here.
unfoldable pub match_line : Re → Bool → Bytes → Bool
unfolding rests
match_line r bol [] = bol && match_here r []
match_line r bol (c ∷ cs) = (bol && match_here r (c ∷ cs)) || match_line r (c == 10) cs

-- The number of matches that `FindAllString` gives for such an expression, one that takes a
-- character at least and no newline at its end.
abbrev behind : List Bytes → (Bytes → ℕ) → ℕ → ℕ
behind [] next other = other
behind (s ∷ ss) next other = next s + 1

unfoldable pub count_lines : ℕ → Re → Bool → Bytes → ℕ
unfolding rests
count_lines zero r bol s = 0
count_lines (suc fuel) r bol [] = 0
count_lines (suc fuel) r bol (c ∷ cs) =
    let other = count_lines fuel r (c == 10) cs in
    if bol then behind (rests r (c ∷ cs)) (λ s. count_lines fuel r false s) other else other

-- `ReplaceAllString`, with the replacement as a function of the match.
abbrev replaced : (Bytes → Bytes) → Bytes → List Bytes → (Bytes → Bytes) → Bytes → Bytes
replaced f s [] next other = other
replaced f s (t ∷ ts) next other = f (take (length s - length t) s) ++ next t

unfoldable pub replace_from : ℕ → Re → (Bytes → Bytes) → Bytes → Bytes
unfolding rests
replace_from zero r f s = s
replace_from (suc fuel) r f [] = []
replace_from (suc fuel) r f (c ∷ cs) =
    let other = c ∷ replace_from fuel r f cs in
    replaced f (c ∷ cs) (rests r (c ∷ cs)) (λ t. replace_from fuel r f t) other

abbrev pub replace_all : Re → (Bytes → Bytes) → Bytes → Bytes
replace_all r f s = replace_from (length s) r f s

abbrev pub constant : String → Bytes → Bytes
constant t s = codes t

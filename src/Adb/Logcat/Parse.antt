-- ===== src/Adb/Logcat/Parse.antt =====
-- internal/adb/adb.go: `parseLogcatLine`, of the bytes of a line.
pub mod Print
use tracelab.Adb.Logcat.{LogcatLine}
use tracelab.Prelude.{
  ℕ, ◌-◌, Bool, true, false, not, ◌&&◌, Option, none, some, List, [], ◌∷◌, ◌++◌, ℤ, Time, Bytes,
  ltb, ◌==◌, if◌then◌else◌, length, take, drop, is_nil, atoi,
}

-- `strings.TrimRight(line, "\r")`
abbrev pub trim_cr : Bytes → Bytes
trim_cr [] = []
trim_cr (c ∷ cs) = let rest = trim_cr cs in if is_nil rest && c == 13 then [] else c ∷ rest

-- `strings.TrimLeft(s, " ")`
abbrev pub skip_spaces : Bytes → Bytes
skip_spaces [] = []
skip_spaces (c ∷ cs) = let rest = skip_spaces cs in if c == 32 then rest else c ∷ cs

-- A byte of a line that is long enough.
abbrev pub byte_at : ℕ → Bytes → ℕ
byte_at n [] = 0
byte_at n (c ∷ cs) = let rest = byte_at (n - 1) cs in if n == 0 then c else rest

abbrev pub has_layout : Bytes → Bool
has_layout line =
    byte_at 2 line == b'-'
    && byte_at 5 line == 32
    && byte_at 8 line == b':'
    && byte_at 11 line == b':'

-- A text at its first space, which is left in the second part.
abbrev before_space : ℕ → Option (Bytes × Bytes) → Option (Bytes × Bytes)
before_space c none = none
before_space c (some (w, r)) = some (c ∷ w, r)

abbrev pub cut_space : Bytes → Option (Bytes × Bytes)
cut_space [] = none
cut_space (c ∷ cs) =
    let rest = cut_space cs in if c == 32 then some ([], c ∷ cs) else before_space c rest

abbrev with_rest : Bytes → Option ℤ → Option (ℤ × Bytes)
with_rest r none = none
with_rest r (some n) = some (n, skip_spaces r)

abbrev word : Option (Bytes × Bytes) → Option (ℤ × Bytes)
word none = none
word (some ([], r)) = none
word (some (c ∷ w, r)) = with_rest r (atoi (c ∷ w))

-- The number up to the next space, and what stands behind the spaces.
abbrev pub number : Bytes → Option (ℤ × Bytes)
number s = word (cut_space s)

-- A text at its first `": "`.
abbrev pub cut_colon : Bytes → Option (Bytes × Bytes)
cut_colon [] = none
cut_colon (c ∷ []) = none
cut_colon (c ∷ d ∷ cs) =
    let rest = cut_colon (d ∷ cs) in
    if c == b':' && d == 32 then some ([], cs) else before_space c rest

-- What stands before a colon at the end.
abbrev onto : ℕ → Option Bytes → Option Bytes
onto c none = none
onto c (some t) = some (c ∷ t)

abbrev pub before_end : Bytes → Option Bytes
before_end [] = none
before_end (c ∷ []) = if c == b':' then some [] else none
before_end (c ∷ d ∷ cs) = onto c (before_end (d ∷ cs))

-- `time.ParseInLocation` of the first 18 bytes with the year of the clock, and `strings.TrimSpace`.
module _ (stamp : Bytes → Option Time) (trim_space : Bytes → Bytes) where
  abbrev at_end : Time → ℤ → ℤ → ℕ → Option Bytes → Option LogcatLine
  at_end ts pid tid level none = none
  at_end ts pid tid level (some tag) = some (record {
    timestamp = ts;
    pid = pid;
    tid = tid;
    level = level;
    tag = trim_space tag;
    message = [];
  })

  abbrev with_tag : Time → ℤ → ℤ → ℕ → Bytes → Option (Bytes × Bytes) → Option LogcatLine
  with_tag ts pid tid level text none = at_end ts pid tid level (before_end text)
  with_tag ts pid tid level text (some (tag, message)) = some (record {
    timestamp = ts;
    pid = pid;
    tid = tid;
    level = level;
    tag = trim_space tag;
    message = message;
  })

  -- `len(rest) < 3`, the level and the space behind it.
  abbrev with_level : Time → ℤ → ℤ → Bytes → Option LogcatLine
  with_level ts pid tid [] = none
  with_level ts pid tid (l ∷ []) = none
  with_level ts pid tid (l ∷ s ∷ []) = none
  with_level ts pid tid (l ∷ s ∷ c ∷ cs) =
      if s == 32 then with_tag ts pid tid l (c ∷ cs) (cut_colon (c ∷ cs)) else none

  abbrev with_tid : Time → ℤ → Option (ℤ × Bytes) → Option LogcatLine
  with_tid ts pid none = none
  with_tid ts pid (some (tid, rest)) = with_level ts pid tid rest

  abbrev with_pid : Time → Option (ℤ × Bytes) → Option LogcatLine
  with_pid ts none = none
  with_pid ts (some (pid, rest)) = with_tid ts pid (number rest)

  abbrev with_stamp : Bytes → Option Time → Option LogcatLine
  with_stamp rest none = none
  with_stamp rest (some ts) = with_pid ts (number (skip_spaces rest))

  -- `parseLogcatLine`; `none` for false.
  unfoldable pub parse_logcat_line : Bytes → Option LogcatLine
  parse_logcat_line raw =
      let line = trim_cr raw in
      if ltb (length line) 19
      then none
      else if has_layout line
      then with_stamp (drop 18 line) (stamp (take 18 line))
      else none

-- ===== src/Agents/Transcript/Tail/Lines.antt =====
-- internal/agents/transcript.go: the complete lines of a text, read in one go or in two.

use tracelab.Agents.Transcript.Tail.{newline, read_lines, consumed}
use tracelab.Prelude.{
  ℕ, zero, suc, ◌+◌, ◌≤◌, ◌≡◌, refl, sym, ap, ◌∙◌, subst, false, List, [], ◌∷◌, ◌++◌, append-nil,
  append_assoc, ◌==◌, if◌then◌else◌, length, length-append, drop, All, All-append, Bool-cases, inl,
  inr, Bytes, arith,
}

-- The line that is still open after `xs`, when `cur` is the line that was being read before.
open_line : Bytes → Bytes → Bytes
open_line cur [] = cur
open_line cur (c ∷ cs) =
    let ended = open_line [] cs in
    let longer = open_line (cur ++ c ∷ []) cs in if c == newline then ended else longer

abbrev IsOpen : Bytes → Type 0
IsOpen = All (λ (c : ℕ). (c == newline) ≡ false)

read_lines-append :
    (xs ys cur : Bytes)
    → read_lines cur (xs ++ ys) ≡ read_lines cur xs ++ read_lines (open_line cur xs) ys
unfolding read_lines open_line
read_lines-append [] ys cur = refl
read_lines-append (c ∷ xs) ys cur = elim (Bool-cases (c == newline)) [
  | inl e ↦ rw e (ap (λ ls. (cur ++ c ∷ []) ∷ ls) (read_lines-append xs ys []))
  | inr e ↦ rw e (read_lines-append xs ys (cur ++ c ∷ []))
]

snoc : (cur xs : Bytes) (c : ℕ) → (cur ++ c ∷ []) ++ xs ≡ cur ++ c ∷ xs
snoc cur xs c = append_assoc cur (c ∷ []) xs

drop-≡ : (m n : ℕ) (xs : Bytes) → m ≡ n → drop m xs ≡ drop n xs
drop-≡ m n xs h = ap (λ k. drop k xs) h

drop-nil : (n : ℕ) → drop {A = ℕ} n [] ≡ []
drop-nil zero = refl
drop-nil (suc n) = refl

drop-append : (n : ℕ) (xs ys : Bytes) → drop (length xs + n) (xs ++ ys) ≡ drop n ys
drop-append n [] ys = drop-≡ (0 + n) n ys (omega arith)
drop-append n (x ∷ xs) ys =
    drop-≡ (suc (length xs) + n) (suc (length xs + n)) (x ∷ (xs ++ ys)) (omega arith)
    ∙ drop-append n xs ys

drop-add : (m n : ℕ) (xs : Bytes) → drop (m + n) xs ≡ drop n (drop m xs)
drop-add zero n xs = drop-≡ (0 + n) n xs (omega arith)
drop-add (suc m) n [] = drop-nil (suc m + n) ∙ sym (drop-nil n)
drop-add (suc m) n (x ∷ xs) =
    drop-≡ (suc m + n) (suc (m + n)) (x ∷ xs) (omega arith) ∙ drop-add m n xs

-- Within the first list, `drop` does not see the second.
drop-front : (n : ℕ) (xs ys : Bytes) → n ≤ length xs → drop n (xs ++ ys) ≡ drop n xs ++ ys
drop-front zero xs ys h = refl
drop-front (suc n) [] ys h = ground (arith, h)
drop-front (suc n) (x ∷ xs) ys h = drop-front n xs ys (ground (arith, h))

-- What stands behind the complete lines is the open line.
drop-consumed :
    (xs cur : Bytes) → drop (consumed (read_lines cur xs)) (cur ++ xs) ≡ open_line cur xs
unfolding read_lines open_line
drop-consumed [] cur = append-nil cur
drop-consumed (c ∷ xs) cur = elim (Bool-cases (c == newline)) [
  | inl e ↦ rw e (
      subst (λ u. drop (length (cur ++ c ∷ []) + consumed (read_lines [] xs)) u ≡ open_line [] xs)
        (snoc cur xs c)
        (drop-append (consumed (read_lines [] xs)) (cur ++ c ∷ []) xs ∙ drop-consumed xs []))
  | inr e ↦ rw e (
      subst (λ u. drop (consumed (read_lines (cur ++ c ∷ []) xs)) u ≡ open_line (cur ++ c ∷ []) xs)
        (snoc cur xs c) (drop-consumed xs (cur ++ c ∷ [])))
]

pub consumed-le : (xs cur : Bytes) → consumed (read_lines cur xs) ≤ length cur + length xs
unfolding read_lines
consumed-le [] cur = omega arith
consumed-le (c ∷ xs) cur =
    let grown : length (cur ++ c ∷ []) ≡ length cur + 1 = length-append cur (c ∷ []) in
    elim (Bool-cases (c == newline)) [
      | inl e ↦ let rest = consumed-le xs [] in rw e (omega (arith, grown, rest))
      | inr e ↦ let rest = consumed-le xs (cur ++ c ∷ []) in rw e (omega (arith, grown, rest))
    ]

open_line-IsOpen : (xs cur : Bytes) → IsOpen cur → IsOpen (open_line cur xs)
unfolding open_line
open_line-IsOpen [] cur h = h
open_line-IsOpen (c ∷ xs) cur h = elim (Bool-cases (c == newline)) [
  | inl e ↦ rw e (open_line-IsOpen xs [] tt)
  | inr e ↦ rw e (
      open_line-IsOpen xs (cur ++ c ∷ [])
        (All-append (λ (b : ℕ). (b == newline) ≡ false) cur (c ∷ []) h (e, tt)))
]

-- Reading an open line again takes up where it was left.
read_lines-open :
    (ys xs cur : Bytes) → IsOpen ys → read_lines cur (ys ++ xs) ≡ read_lines (cur ++ ys) xs
unfolding read_lines
read_lines-open [] xs cur h = ap (λ u. read_lines u xs) (sym (append-nil cur))
read_lines-open (y ∷ ys) xs cur h =
    rw (h.0) (read_lines-open ys xs (cur ++ y ∷ []) h.1) ∙ ap (λ u. read_lines u xs) (snoc cur ys y)

-- Lines that are read in two goes are the lines that are read at once.
read_lines-resume :
    (xs ys : Bytes)
    → read_lines [] (xs ++ ys)
      ≡ read_lines [] xs ++ read_lines [] (drop (consumed (read_lines [] xs)) xs ++ ys)
read_lines-resume xs ys =
    read_lines-append xs ys []
    ∙ ap (λ ls. read_lines [] xs ++ ls)
        (sym (
          subst (λ u. read_lines [] (u ++ ys) ≡ read_lines (open_line [] xs) ys)
            (sym (drop-consumed xs []))
            (read_lines-open (open_line [] xs) ys [] (open_line-IsOpen xs [] tt))))

pub consumed-append : (xs ys : List Bytes) → consumed (xs ++ ys) ≡ consumed xs + consumed ys
consumed-append [] ys = omega arith
consumed-append (x ∷ xs) ys = omega (arith, consumed-append xs ys)

pub length-drop : (n : ℕ) (xs : Bytes) → n ≤ length xs → n + length (drop n xs) ≡ length xs
length-drop zero xs h = omega arith
length-drop (suc n) [] h = ground (arith, h)
length-drop (suc n) (x ∷ xs) h = omega (arith, length-drop n xs (omega (arith, h)))

-- The lines behind an offset, in two goes.
pub lines_in_two :
    (off : ℕ) (xs ys : Bytes)
    → off ≤ length xs
    → read_lines [] (drop off (xs ++ ys))
      ≡ read_lines [] (drop off xs)
        ++ read_lines [] (drop (off + consumed (read_lines [] (drop off xs))) (xs ++ ys))
lines_in_two off xs ys h =
    let seen = drop off xs in
    let first = read_lines [] seen in
    let front : drop off (xs ++ ys) ≡ seen ++ ys = drop-front off xs ys h in
    let within : consumed first ≤ length seen = omega (arith, consumed-le seen []) in
    let rest : drop (off + consumed first) (xs ++ ys) ≡ drop (consumed first) seen ++ ys =
      drop-add off (consumed first) (xs ++ ys)
      ∙ ap (λ u. drop (consumed first) u) front
      ∙ drop-front (consumed first) seen ys within in
    ap (λ u. read_lines [] u) front
    ∙ read_lines-resume seen ys
    ∙ ap (λ u. first ++ read_lines [] u) (sym rest)

-- ===== src/Store/Sessions/Ids.antt =====
-- internal/store/sqlite.go: `newSessionID`, with an id as the list of its characters.
use tracelab.Prelude.{
  ℕ, zero, suc, ◌+◌, ◌*◌, ◌/◌, ◌%◌, ◌^◌, ◌<◌, ◌≡◌, refl, sym, ◌∙◌, Bool, true, false, ◌&&◌, ◌||◌,
  Option, none, some, [], ◌∷◌, ◌++◌, Bytes, ℤ, pos, negsuc, ltb, ◌==◌, if◌then◌else◌, length,
  length-append, Bool-cases, inl, inr, arith,
}

abbrev hex_digit : ℕ → ℕ
hex_digit d = if ltb d 10 then d + 48 else d + 87

-- The last digits of a number in base 16, with leading zeros.
unfoldable pub hex_digits : ℕ → ℕ → Bytes
hex_digits zero v = []
hex_digits (suc w) v = hex_digits w (v / 16) ++ hex_digit (v % 16) ∷ []

-- `%016x` of a 64-bit integer: the sign takes one of the sixteen places, if they are enough.
abbrev pub hex_padded : ℤ → Bytes
hex_padded (pos n) = hex_digits 16 n
hex_padded (negsuc n) =
    b'-' ∷ (if ltb (n + 1) (16 ^ 15) then hex_digits 15 (n + 1) else hex_digits 16 (n + 1))

-- `hex.EncodeToString`
abbrev pub hex_bytes : Bytes → Bytes
hex_bytes [] = []
hex_bytes (c ∷ cs) = hex_digits 2 c ++ hex_bytes cs

-- `newSessionID`, from the five random bytes, or none if the source fails, and from the clock.
unfoldable pub new_session_id : Option Bytes → ℤ → Option Bytes
unfolding hex_digits
new_session_id none now = none
new_session_id (some random) now = some (hex_padded now ++ hex_bytes random)

-- The order of texts, character by character.
abbrev pub before : Bytes → Bytes → Bool
before [] [] = false
before [] (y ∷ ys) = true
before (x ∷ xs) [] = false
before (x ∷ xs) (y ∷ ys) = ltb x y || (x == y && before xs ys)

abbrev pub sorts_before : Option Bytes → Option Bytes → Bool
sorts_before none b = false
sorts_before (some a) none = false
sorts_before (some a) (some b) = before a b

before-append :
    (xs ys us vs : Bytes)
    → length xs ≡ length ys
    → before xs ys ≡ true
    → before (xs ++ us) (ys ++ vs) ≡ true
before-append [] [] us vs l h = ground (arith, h)
before-append [] (y ∷ ys) us vs l h = ground (arith, l)
before-append (x ∷ xs) [] us vs l h = ground (arith, l)
before-append (x ∷ xs) (y ∷ ys) us vs l h = elim (Bool-cases (ltb x y)) [
  | inl e ↦ rw e refl
  | inr e ↦
      let same : (x == y) ≡ true = ground (arith, e, h) in
      let later : before xs ys ≡ true = ground (arith, e, h) in
      rw (e, same, before-append xs ys us vs (ground (arith, l)) later) refl
]

before_last : (xs : Bytes) (x y : ℕ) → x < y → before (xs ++ x ∷ []) (xs ++ y ∷ []) ≡ true
before_last [] x y h = ground (arith, h)
before_last (z ∷ xs) x y h = ground (arith, before_last xs x y h)

length-hex_digits : (w v : ℕ) → length (hex_digits w v) ≡ w
unfolding hex_digits
length-hex_digits zero v = refl
length-hex_digits (suc w) v =
    length-append (hex_digits w (v / 16)) (hex_digit (v % 16) ∷ [])
    ∙ rw (length-hex_digits w (v / 16)) (omega arith)

hex_digits-before :
    (w m n : ℕ) → m < n → n < 16 ^ w → before (hex_digits w m) (hex_digits w n) ≡ true
unfolding hex_digits
hex_digits-before zero m n h b = ground (arith, h, b)
hex_digits-before (suc w) m n h b = elim (Bool-cases (m / 16 == n / 16)) [
  | inl e ↦
      let same : m / 16 ≡ n / 16 = ground (arith, e) in
      let last : m % 16 < n % 16 = omega (arith, h, same) in
      let digit : hex_digit (m % 16) < hex_digit (n % 16) = ground (arith, last) in
      rw same (before_last (hex_digits w (n / 16)) (hex_digit (m % 16)) (hex_digit (n % 16)) digit)
  | inr e ↦
      let less : m / 16 < n / 16 = ground (arith, h, e) in
      let power : 16 ^ suc w ≡ 16 * 16 ^ w = grind arith in
      let fits : n / 16 < 16 ^ w = omega (arith, b, power) in
      before-append (hex_digits w (m / 16)) (hex_digits w (n / 16)) _ _
        (length-hex_digits w (m / 16) ∙ sym (length-hex_digits w (n / 16)))
        (hex_digits-before w (m / 16) (n / 16) less fits)
]

-- Of two sessions, the one that was created at the earlier instant of the two has an id that sorts first,
-- whatever the random bytes, at any instant from 1970 on that `UnixNano` can hold.
pub new_session_id-before :
    (m n : ℕ) (random other : Bytes)
    → m < n
    → n < 2 ^ 63
    → sorts_before (new_session_id (some random) (pos m)) (new_session_id (some other) (pos n))
      ≡ true
unfolding new_session_id
new_session_id-before m n random other h b =
    before-append (hex_digits 16 m) (hex_digits 16 n) (hex_bytes random) (hex_bytes other)
      (length-hex_digits 16 m ∙ sym (length-hex_digits 16 n))
      (hex_digits-before 16 m n h (omega (arith, b)))

-- ===== src/Adb/Devices/Trailer.antt =====
-- internal/adb/adb.go: the free text behind the state of a device without permissions.
use tracelab.Adb.Devices.{
  before_colon, cut, both, key_value, is_key_char, all_key_chars, has_key, is_key_value_token,
  trim_semicolons, drop_trailer, extract_state,
}
use tracelab.Prelude.{
  ℕ, zero, suc, ◌≤◌, ◌≡◌, ◌⊎◌, refl, sym, ap, ◌∙◌, subst, true, false, Option, none, some, List, [],
  ◌∷◌, ◌++◌, ◌==◌, All, Bytes, codes, replicate, Bool-cases, inl, inr, arith,
}

-- An ASCII letter, or an underscore.
abbrev pub IsKeyLetter : ℕ → Type 0
IsKeyLetter c = (c ≡ b'_') ⊎ ((b'a' ≤ c) × (c ≤ b'z')) ⊎ ((b'A' ≤ c) × (c ≤ b'Z'))

-- A field `key:value`: letters, a colon, and something behind it.
pub record IsField (t : Bytes) : Type 0 where
  pub first : ℕ
  pub key : Bytes
  pub head : ℕ
  pub value : Bytes
  pub letters : All IsKeyLetter (first ∷ key)
  pub shape : t ≡ first ∷ key ++ b':' ∷ head ∷ value

is_key_char-letter : (c : ℕ) → IsKeyLetter c → is_key_char c ≡ true
is_key_char-letter c h = ground (arith, h)

letter-is_key_char : (c : ℕ) → is_key_char c ≡ true → IsKeyLetter c
letter-is_key_char c h = ground (arith, h)

cut-letters : (k v : Bytes) → All IsKeyLetter k → cut (k ++ b':' ∷ v) ≡ some (k, v)
cut-letters [] v h = refl
cut-letters (c ∷ k) v h =
    let letter : (c == b':') ≡ false = ground (arith, h.0) in rw (letter, cut-letters k v h.1) refl

all_key_chars-letters : (k : Bytes) → All IsKeyLetter k → all_key_chars k ≡ true
all_key_chars-letters [] h = refl
all_key_chars-letters (c ∷ k) h = rw (is_key_char-letter c h.0, all_key_chars-letters k h.1) refl

letters-all_key_chars : (k : Bytes) → all_key_chars k ≡ true → All IsKeyLetter k
letters-all_key_chars [] h = tt
letters-all_key_chars (c ∷ k) h =
    (letter-is_key_char c (ground (arith, h)), letters-all_key_chars k (ground (arith, h)))

-- A field is taken for one.
pub IsField-token : (t : Bytes) → IsField t → is_key_value_token t ≡ true
unfolding is_key_value_token
IsField-token t f =
    subst (λ u. has_key (key_value u) ≡ true) (sym f.shape)
      (rw (cut-letters (f.first ∷ f.key) (f.head ∷ f.value) f.letters)
        (all_key_chars-letters (f.first ∷ f.key) f.letters))

-- Where a token was cut.
abbrev IsCut : Bytes → Option (Bytes × Bytes) → Type 0
IsCut t none = Unit
IsCut t (some (k, v)) = t ≡ k ++ b':' ∷ v

before_colon-IsCut :
    (c : ℕ) (cs : Bytes) (o : Option (Bytes × Bytes))
    → IsCut cs o
    → IsCut (c ∷ cs) (before_colon c o)
before_colon-IsCut c cs none h = tt
before_colon-IsCut c cs (some (k, v)) h = ap (λ u. c ∷ u) h

cut-IsCut : (t : Bytes) → IsCut t (cut t)
cut-IsCut [] = tt
cut-IsCut (c ∷ cs) = elim (Bool-cases (c == b':')) [
  | inl e ↦ let colon : c ≡ b':' = ground (arith, e) in rw e (ap (λ u. u ∷ cs) colon)
  | inr e ↦ rw e (before_colon-IsCut c cs (cut cs) (cut-IsCut cs))
]

has_key-IsField :
    (t : Bytes) (o : Option (Bytes × Bytes)) → IsCut t o → has_key (both o) ≡ true → IsField t
has_key-IsField t none c h = absurd (ground (arith, h))
has_key-IsField t (some ([], v)) c h = absurd (ground (arith, h))
has_key-IsField t (some (x ∷ k, [])) c h = absurd (ground (arith, h))
has_key-IsField t (some (x ∷ k, d ∷ v)) c h = record {
  first = x;
  key = k;
  head = d;
  value = v;
  letters = letters-all_key_chars (x ∷ k) h;
  shape = c;
}

-- What is taken for a field is one.
pub token-IsField : (t : Bytes) → is_key_value_token t ≡ true → IsField t
unfolding is_key_value_token
token-IsField t h = has_key-IsField t (cut t) (cut-IsCut t) h

abbrev pub NoField : Bytes → Type 0
NoField t = IsField t → ⊥

NoField-token : (t : Bytes) → NoField t → is_key_value_token t ≡ false
NoField-token t n = elim (Bool-cases (is_key_value_token t)) [
  | inl e ↦ absurd (n (token-IsField t e))
  | inr e ↦ e
]

drop_trailer_lem :
    (trailer fields : List Bytes)
    → All NoField trailer
    → drop_trailer (trailer ++ fields) ≡ drop_trailer fields
unfolding drop_trailer
drop_trailer_lem [] fields h = refl
drop_trailer_lem (t ∷ ts) fields h = rw (NoField-token t h.0) (drop_trailer_lem ts fields h.1)

-- Nothing, or a field and anything behind it.
abbrev pub StartsField : List Bytes → Type 0
StartsField [] = Unit
StartsField (f ∷ fs) = IsField f

drop_trailer_fields : (fields : List Bytes) → StartsField fields → drop_trailer fields ≡ fields
unfolding drop_trailer
drop_trailer_fields [] h = refl
drop_trailer_fields (f ∷ fs) h = rw (IsField-token f h) refl

trim_semicolons-empty : (n : ℕ) → trim_semicolons (replicate n b';') ≡ []
trim_semicolons-empty zero = refl
trim_semicolons-empty (suc n) = rw (trim_semicolons-empty n) refl

trimmed_word :
    (n : ℕ) → trim_semicolons (codes "permissions" ++ replicate n b';') ≡ codes "permissions"
trimmed_word n = rw (trim_semicolons-empty n) refl

two_words :
    (w : Bytes) (fs : List Bytes)
    → trim_semicolons w ≡ codes "permissions"
    → extract_state (codes "no" ∷ w ∷ fs) ≡ (codes "no permissions", drop_trailer fs)
unfolding extract_state
two_words w fs h = rw h refl

-- Behind "no permissions", with any number of semicolons, adb may print any words of which none is a
-- field `key:value` with a key of letters and underscores. The state is then the two words alone, and the
-- scan for values gets what stands from the first such field on, or nothing if there is none.
pub extract_state-trailer :
    (n : ℕ) (trailer fields : List Bytes)
    → All NoField trailer
    → StartsField fields
    → extract_state (codes "no" ∷ (codes "permissions" ++ replicate n b';') ∷ (trailer ++ fields))
      ≡ (codes "no permissions", fields)
extract_state-trailer n trailer fields h start =
    two_words (codes "permissions" ++ replicate n b';') (trailer ++ fields) (trimmed_word n)
    ∙ ap (λ u. (codes "no permissions", u))
        (drop_trailer_lem trailer fields h ∙ drop_trailer_fields fields start)

-- ===== src/Crash/Fingerprint/Frames.antt =====
-- internal/crash/detect.go: the lines of a text, and the first frames among them.
use tracelab.Crash.Detect.{split_lines}
use tracelab.Crash.Fingerprint.{is_noise, top_from, top_frames}
use tracelab.Prelude.{
  trim, ℕ, suc, ◌+◌, ◌-◌, ◌<◌, ◌≡◌, refl, sym, ap, ◌∙◌, Bool, true, false, List, [], ◌∷◌, ◌++◌,
  append-nil, append_assoc, Bytes, leb, ◌==◌, if◌then◌else◌, length, length-append, take, any,
  Bool-cases, inl, inr, arith,
}

-- The lines that count, trimmed.
abbrev pub frames : List Bytes → List Bytes
frames [] = []
frames (line ∷ lines) = if is_noise (trim line) then frames lines else trim line ∷ frames lines

pub frames-append : (xs ys : List Bytes) → frames (xs ++ ys) ≡ frames xs ++ frames ys
frames-append [] ys = refl
frames-append (x ∷ xs) ys = elim (Bool-cases (is_noise (trim x))) [
  | inl e ↦ rw e (frames-append xs ys)
  | inr e ↦ rw e (ap (λ u. trim x ∷ u) (frames-append xs ys))
]

take-≡ : (m n : ℕ) (xs : List Bytes) → m ≡ n → take m xs ≡ take n xs
take-≡ m n xs h = ap (λ i. take i xs) h

-- The loop gives the first of the lines that count.
top_from-take :
    (n : ℕ) (out lines : List Bytes)
    → length out < n
    → top_from n out lines ≡ out ++ take (n - length out) (frames lines)
unfolding top_from
top_from-take n out [] h =
    let room : n - length out ≡ suc (n - length out - 1) = omega (arith, h) in
    sym (append-nil out) ∙ ap (λ u. out ++ u) (sym (take-≡ (n - length out) _ [] room))
top_from-take n out (line ∷ lines) h =
    let t = trim line in
    let grown : length (out ++ t ∷ []) ≡ length out + 1 = length-append out (t ∷ []) in
    let room : n - length out ≡ suc (n - length out - 1) = omega (arith, h) in
    elim (Bool-cases (is_noise t)) [
      | inl e ↦ rw e (top_from-take n out lines h)
      | inr e ↦ elim (Bool-cases (leb n (length (out ++ t ∷ [])))) [
        | inl f ↦
            let last : n - length out - 1 ≡ 0 = ground (arith, f, grown) in
            rw (e, f)
              (ap (λ u. out ++ t ∷ u) (sym (take-≡ (n - length out - 1) 0 (frames lines) last))
                ∙ ap (λ u. out ++ u) (sym (take-≡ (n - length out) _ (t ∷ frames lines) room)))
        | inr f ↦
            let less : length (out ++ t ∷ []) < n = ground (arith, f) in
            let left : n - length (out ++ t ∷ []) ≡ n - length out - 1 = omega (arith, grown) in
            rw (e, f)
              (top_from-take n (out ++ t ∷ []) lines less
                ∙ append_assoc out (t ∷ []) _
                ∙ ap (λ u. out ++ t ∷ u) (take-≡ _ _ (frames lines) left)
                ∙ ap (λ u. out ++ u) (sym (take-≡ (n - length out) _ (t ∷ frames lines) room)))
      ]
    ]

-- The specification of `topFrames`.
pub top_frames_lem :
    (n : ℕ) (s : Bytes) → top_frames (suc n) s ≡ take (suc n) (frames (split_lines s))
top_frames_lem n s =
    top_from-take (suc n) [] (split_lines s) (omega arith)
    ∙ take-≡ (suc n - 0) (suc n) (frames (split_lines s)) (omega arith)

record IsCons (ls : List Bytes) : Type 0 where
  head : Bytes
  tail : List Bytes
  shape : ls ≡ head ∷ tail

split_lines-IsCons : (s : Bytes) → IsCons (split_lines s)
unfolding split_lines
split_lines-IsCons [] = record { head = []; tail = []; shape = refl }
split_lines-IsCons (c ∷ cs) = elim (Bool-cases (c == 10)) [
  | inl e ↦ rw e (record { head = []; tail = split_lines cs; shape = refl })
  | inr e ↦
      let r = split_lines-IsCons cs in
      rw (e, r.shape) (record { head = c ∷ r.head; tail = r.tail; shape = refl })
]

pub split_lines-append :
    (xs ys : Bytes) → split_lines (xs ++ 10 ∷ ys) ≡ split_lines xs ++ split_lines ys
unfolding split_lines
split_lines-append [] ys = refl
split_lines-append (x ∷ xs) ys = elim (Bool-cases (x == 10)) [
  | inl e ↦ rw e (ap (λ u. [] ∷ u) (split_lines-append xs ys))
  | inr e ↦ let r = split_lines-IsCons xs in rw (e, split_lines-append xs ys, r.shape) refl
]

abbrev pub is_newline : ℕ → Bool
is_newline c = c == 10

-- A text without a newline is one line.
pub split_lines_single : (l : Bytes) → any is_newline l ≡ false → split_lines l ≡ l ∷ []
unfolding split_lines
split_lines_single [] h = refl
split_lines_single (c ∷ cs) h = elim (Bool-cases (c == 10)) [
  | inl e ↦ let bad : true ≡ false = rw e at h in cc bad
  | inr e ↦ let k : any is_newline cs ≡ false = rw e at h in rw (e, split_lines_single cs k) refl
]

-- ===== src/Agents/Transcript/Tail/Growth.antt =====
-- internal/agents/transcript.go: a file that grows between the ticks of the tail loop.
use tracelab.Agents.Tables.{Answer}
use tracelab.Agents.Transcript.{Decoder}
use tracelab.Agents.Transcript.Persist.{World}
use tracelab.Agents.Transcript.Tail.{
  TranscriptBridge, FileView, opened, read_lines, consumed, or_zero, process_lines, tail_file,
  whole,
}
use tracelab.Agents.Transcript.Tail.Lines.{consumed-append, lines_in_two, consumed-le, length-drop}
use tracelab.Prelude.{
  ℕ, ◌+◌, ◌≤◌, String, ◌≡◌, refl, sym, ap, ◌∙◌, subst, false, List, [], ◌∷◌, ◌++◌, append-nil,
  append_assoc, ℤ, ltb, length, length-append, drop, Bool-cases, inl, inr, Bytes, Assoc, lookup,
  put, lookup-put, arith, str_eq, str_eq_refl,
}

put-put : (k : String) (a b : ℕ) (m : Assoc ℕ) → put k b (put k a m) ≡ put k b m
unfolding put
put-put k a b [] = rw (str_eq_refl k) refl
put-put k a b ((j, v) ∷ m) = elim (Bool-cases (str_eq j k)) [
  | inl e ↦ rw (e, str_eq_refl k) refl
  | inr e ↦ ground (arith, e, put-put k a b m)
]

abbrev offset : String → TranscriptBridge → ℕ
offset path b = or_zero (lookup path b.offsets)

module _ (d : Decoder) (io : ℕ → Answer) (clock : ℕ → ℤ) (path : String) where
  process_lines-append :
      (xs ys : List Bytes) (w : World)
      → process_lines d io clock path (xs ++ ys) w
        ≡ process_lines d io clock path ys (process_lines d io clock path xs w)
  process_lines-append [] ys w = refl
  process_lines-append (x ∷ xs) ys w = process_lines-append xs ys _

  -- A file that has been read to its end without a fault.
  abbrev advance : ℕ → Bytes → TranscriptBridge → TranscriptBridge
  advance off bytes b = record {
    offsets = put path (off + consumed (read_lines [] (drop off bytes))) b.offsets;
    world = process_lines d io clock path (read_lines [] (drop off bytes)) b.world;
  }

  tail_file-advance :
      (v : FileView) (b : TranscriptBridge)
      → v.fault ≡ false
      → offset path b ≤ v.size
      → tail_file d io clock path (opened v) b ≡ advance (offset path b) v.bytes b
  unfolding tail_file
  tail_file-advance v b f h =
      let within : ltb v.size (offset path b) ≡ false = ground (arith, h) in rw (within, f) refl

  offset-advance :
      (off : ℕ) (bytes : Bytes) (b : TranscriptBridge)
      → offset path (advance off bytes b) ≡ off + consumed (read_lines [] (drop off bytes))
  offset-advance off bytes b = rw (lookup-put path path _ b.offsets, str_eq_refl path) refl

  -- Reading a file, and then the file with more in it, is reading the longer file.
  advance-advance :
      (off : ℕ) (xs ys : Bytes) (b : TranscriptBridge)
      → off ≤ length xs
      → advance (off + consumed (read_lines [] (drop off xs))) (xs ++ ys) (advance off xs b)
        ≡ advance off (xs ++ ys) b
  advance-advance off xs ys b h =
      let first = read_lines [] (drop off xs) in
      let second = read_lines [] (drop (off + consumed first) (xs ++ ys)) in
      let two : read_lines [] (drop off (xs ++ ys)) ≡ first ++ second = lines_in_two off xs ys h in
      let offsets : put path (off + consumed first + consumed second)
            (put path (off + consumed first) b.offsets)
          ≡ put path (off + consumed (first ++ second)) b.offsets =
        put-put path (off + consumed first) (off + consumed first + consumed second) b.offsets
        ∙ ap (λ n. put path n b.offsets) (omega (arith, consumed-append first second)) in
      let world : process_lines d io clock path second (process_lines d io clock path first b.world)
          ≡ process_lines d io clock path (first ++ second) b.world =
        sym (process_lines-append first second b.world) in
      subst
        (λ (ls : List Bytes).
          advance (off + consumed first) (xs ++ ys) (advance off xs b) ≡ record {
            offsets = put path (off + consumed ls) b.offsets;
            world = process_lines d io clock path ls b.world;
          })
        (sym two) (ground (arith, offsets, world))

-- The file after each of its growths, of which the first part comes before `Stat` and the second
-- between `Stat` and the last read.
abbrev pub grown : Bytes → List (Bytes × Bytes) → Bytes
grown content [] = content
grown content ((a, b) ∷ gs) = grown (content ++ (a ++ b)) gs

-- One call of `tailFile` after each growth.
abbrev pub tail_growth :
    Decoder
    → (ℕ → Answer)
    → (ℕ → ℤ)
    → String
    → Bytes
    → List (Bytes × Bytes)
    → TranscriptBridge
    → TranscriptBridge
tail_growth d io clock path content [] b = b
tail_growth d io clock path content ((before, after) ∷ gs) b =
    tail_growth d io clock path (content ++ (before ++ after)) gs (
      tail_file d io clock path
        (opened (record {
          size = length (content ++ before);
          bytes = content ++ (before ++ after);
          fault = false;
        }))
        b)

grown-front :
    (content : Bytes) (gs : List (Bytes × Bytes))
    → (rest : Bytes) × (grown content gs ≡ content ++ rest)
grown-front content [] = ([], sym (append-nil content))
grown-front content ((a, b) ∷ gs) =
    let r = grown-front (content ++ (a ++ b)) gs in
    ((a ++ b) ++ r.0, r.1 ∙ append_assoc content (a ++ b) r.0)

module _ (d : Decoder) (io : ℕ → Answer) (clock : ℕ → ℤ) (path : String) where
  first_tail :
      (content before after : Bytes) (b : TranscriptBridge)
      → offset path b ≤ length content
      → tail_file d io clock path
          (opened (record {
            size = length (content ++ before);
            bytes = content ++ (before ++ after);
            fault = false;
          }))
          b
        ≡ advance d io clock path (offset path b) (content ++ (before ++ after)) b
  first_tail content before after b h =
      tail_file-advance d io clock path _ b refl (omega (arith, h, length-append content before))

  whole_tail :
      (bytes : Bytes) (b : TranscriptBridge)
      → offset path b ≤ length bytes
      → tail_file d io clock path (opened (whole bytes)) b
        ≡ advance d io clock path (offset path b) bytes b
  whole_tail bytes b h = tail_file-advance d io clock path (whole bytes) b refl h

  offset-le :
      (bytes : Bytes) (b : TranscriptBridge)
      → offset path b ≤ length bytes
      → offset path (advance d io clock path (offset path b) bytes b) ≤ length bytes
  offset-le bytes b h =
      let off = offset path b in
      omega (
        arith,
        offset-advance d io clock path off bytes b,
        consumed-le (drop off bytes) [],
        length-drop off bytes h,
      )

  -- A file that grows while it is tailed, in any number of steps and also between `Stat` and the reads, is
  -- processed as if it had been read once at the end: the same lines in the same order, each once, with
  -- the same rows, log and offset. A line that is cut off at the end of one tick is read in a later one.
  pub tail_growth-whole :
      (content : Bytes) (g : Bytes × Bytes) (gs : List (Bytes × Bytes)) (b : TranscriptBridge)
      → or_zero (lookup path b.offsets) ≤ length content
      → tail_growth d io clock path content (g ∷ gs) b
        ≡ tail_file d io clock path (opened (whole (grown content (g ∷ gs)))) b
  tail_growth-whole content (a, z) [] b h =
      first_tail content a z b h
      ∙ sym (whole_tail (content ++ (a ++ z)) b (omega (arith, h, length-append content (a ++ z))))
  tail_growth-whole content (a, z) (g ∷ gs) b h =
      let off = offset path b in
      let seen = content ++ (a ++ z) in
      let longer : off ≤ length seen = omega (arith, h, length-append content (a ++ z)) in
      let next = advance d io clock path off seen b in
      let within : offset path next ≤ length seen = offset-le seen b longer in
      let front = grown-front seen (g ∷ gs) in
      let final = grown seen (g ∷ gs) in
      let enough : length seen ≤ length final =
        subst (λ u. length seen ≤ length u) (sym front.1)
          (omega (arith, length-append seen front.0)) in
      ap (λ u. tail_growth d io clock path seen (g ∷ gs) u) (first_tail content a z b h)
      ∙ tail_growth-whole seen g gs next within
      ∙ whole_tail final next (omega (arith, within, enough))
      ∙ ap (λ n. advance d io clock path n final next) (offset-advance d io clock path off seen b)
      ∙ subst
          (λ u.
            advance d io clock path (off + consumed (read_lines [] (drop off seen))) u next
            ≡ advance d io clock path off u b)
          (sym front.1) (advance-advance d io clock path off seen front.0 b longer)
      ∙ sym (whole_tail final b (omega (arith, longer, enough)))

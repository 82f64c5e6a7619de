-- ===== src/Crash/Fingerprint/Stable.antt =====
-- internal/crash/detect.go: what does not change a fingerprint.
use tracelab.Crash.Detect.{split_lines}
use tracelab.Crash.Fingerprint.{
  is_noise, top_frames, join, or_whole, fingerprint, top_from, is_header_line,
}
use tracelab.Crash.Fingerprint.Frames.{
  frames, frames-append, top_frames_lem, split_lines-append, split_lines_single, is_newline,
}
use tracelab.Prelude.{
  is_nil, false, All, All-append, trim, ◌≡◌, ◌≢◌, refl, sym, ap, ◌∙◌, true, false, List, [], ◌∷◌,
  ◌++◌, Bytes, take, any,
}

abbrev pub IsLine : Bytes → Type 0
IsLine l = any is_newline l ≡ false

-- The lines that a text was joined from.
split_lines-join :
    (l : Bytes) (ls : List Bytes) → All IsLine (l ∷ ls) → split_lines (join (l ∷ ls)) ≡ l ∷ ls
split_lines-join l [] h = split_lines_single l h.0
split_lines-join l (m ∷ ls) h =
    split_lines-append l (join (m ∷ ls))
    ∙ ap (λ u. u ++ split_lines (join (m ∷ ls))) (split_lines_single l h.0)
    ∙ ap (λ u. l ∷ u) (split_lines-join m ls h.1)

frames-join : (ls : List Bytes) → All IsLine ls → frames (split_lines (join ls)) ≡ frames ls
unfolding split_lines is_header_line
frames-join [] h = refl
frames-join (l ∷ ls) h = ap frames (split_lines-join l ls h)

top_frames-join : (ls : List Bytes) → All IsLine ls → top_frames 3 (join ls) ≡ take 3 (frames ls)
top_frames-join ls h = top_frames_lem 2 (join ls) ∙ ap (take 3) (frames-join ls h)

or_whole-cons : (s t : Bytes) (fs : List Bytes) → fs ≢ [] → or_whole s fs ≡ or_whole t fs
or_whole-cons s t [] h = absurd (h refl)
or_whole-cons s t (f ∷ fs) h = refl

framed_text : (s : Bytes) → top_frames 3 s ≢ [] → is_nil s ≡ false
unfolding split_lines is_header_line top_from
framed_text [] h = absurd (h refl)
framed_text (c ∷ cs) h = refl

-- Texts with the same first frames have the same fingerprint.
fingerprint_frames :
    (digest : Bytes → Bytes) (s t : Bytes)
    → top_frames 3 s ≡ top_frames 3 t
    → top_frames 3 t ≢ []
    → fingerprint digest s ≡ fingerprint digest t
unfolding fingerprint
fingerprint_frames digest s t same framed =
    rw (framed_text s (λ e. framed (sym same ∙ e)), framed_text t framed)
      (ap (λ fs. take 16 (digest (join (or_whole s fs)))) same
        ∙ ap (λ fs. take 16 (digest (join fs))) (or_whole-cons s t (top_frames 3 t) framed))

-- The fingerprint of a stack that has a frame does not change when a line that is blank, or that begins,
-- blanks aside, with one of the header shapes, is put in between any two of its lines, before the first or
-- behind the last, nor when one is taken out: what else stands in such a line does not matter.
pub fingerprint_noise :
    (digest : Bytes → Bytes) (before after : List Bytes) (line : Bytes)
    → All IsLine before
    → IsLine line
    → All IsLine after
    → is_noise (trim line) ≡ true
    → top_frames 3 (join (before ++ after)) ≢ []
    → fingerprint digest (join (before ++ line ∷ after))
      ≡ fingerprint digest (join (before ++ after))
fingerprint_noise digest before after line b l a noise framed =
    let skipped : frames (line ∷ after) ≡ frames after = rw noise refl in
    let frames_same : frames (before ++ line ∷ after) ≡ frames (before ++ after) =
      frames-append before (line ∷ after)
      ∙ ap (λ u. frames before ++ u) skipped
      ∙ sym (frames-append before after) in
    fingerprint_frames digest (join (before ++ line ∷ after)) (join (before ++ after))
      (top_frames-join (before ++ line ∷ after) (All-append IsLine before (line ∷ after) b (l, a))
        ∙ ap (take 3) frames_same
        ∙ sym (top_frames-join (before ++ after) (All-append IsLine before after b a)))
      framed

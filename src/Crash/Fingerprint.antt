-- ===== src/Crash/Fingerprint.antt =====
-- internal/crash/detect.go: `Fingerprint` and `topFrames`.
pub mod Frames
pub mod Stable
use tracelab.Crash.Detect.{split_lines}
use tracelab.Crash.Patterns.{re_header_shapes}
use tracelab.Crash.Regex.{match_here, rests}
use tracelab.Prelude.{
  is_nil, trim, ℕ, Bool, true, false, ◌||◌, List, [], ◌∷◌, ◌++◌, Bytes, leb, if◌then◌else◌, length,
  take,
}

-- `isHeaderLine`
unfoldable pub is_header_line : Bytes → Bool
unfolding rests
is_header_line t = match_here re_header_shapes t

-- A line that is passed over, when it has been trimmed.
abbrev pub is_noise : Bytes → Bool
is_noise t = is_nil t || is_header_line t

-- The loop of `topFrames`.
unfoldable pub top_from : ℕ → List Bytes → List Bytes → List Bytes
top_from n out [] = out
top_from n out (line ∷ lines) =
    let t = trim line in
    let more = out ++ t ∷ [] in
    let on = top_from n more lines in
    let past = top_from n out lines in
    if is_noise t then past else if leb n (length more) then more else on

-- `topFrames`
abbrev pub top_frames : ℕ → Bytes → List Bytes
top_frames n s = top_from n [] (split_lines s)

-- `strings.Join(frames, "\n")`
abbrev pub join : List Bytes → Bytes
join [] = []
join (l ∷ []) = l
join (l ∷ m ∷ ls) = l ++ 10 ∷ join (m ∷ ls)

abbrev pub or_whole : Bytes → List Bytes → List Bytes
or_whole s [] = trim s ∷ []
or_whole s (f ∷ fs) = f ∷ fs

-- `Fingerprint`; `digest` is the hexadecimal form of the SHA-256 of a text.
unfoldable pub fingerprint : (Bytes → Bytes) → Bytes → Bytes
fingerprint digest s =
    if is_nil s then [] else take 16 (digest (join (or_whole s (top_frames 3 s))))

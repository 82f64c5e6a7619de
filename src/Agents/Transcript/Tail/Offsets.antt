-- ===== src/Agents/Transcript/Tail/Offsets.antt =====
-- internal/agents/transcript.go: the offsets, after a file that cannot be read to its end too.
use tracelab.Agents.Tables.{Answer}
use tracelab.Agents.Transcript.{Decoder}
use tracelab.Agents.Transcript.Tail.{
  TranscriptBridge, Opening, missing, failed, opened, read_lines, consumed, or_zero, tail_file,
}
use tracelab.Prelude.{
  ℕ, ◌+◌, String, ◌≡◌, refl, Bool, false, not, ◌&&◌, some, [], ℤ, ltb, if◌then◌else◌, drop,
  Bool-cases, inl, inr, lookup, lookup-put, arith, str_eq,
}

-- The file was read to its end.
abbrev pub is_read : Opening → Bool
is_read missing = false
is_read failed = false
is_read (opened v) = not v.fault

-- Behind the last complete line: from the old offset, or from the start if the file has shrunk.
abbrev pub behind_lines : ℕ → Opening → ℕ
behind_lines off missing = off
behind_lines off failed = off
behind_lines off (opened v) =
    let start = if ltb v.size off then 0 else off in
    start + consumed (read_lines [] (drop start v.bytes))

-- A file moves the offset of its own path only, and only when it is read to its end: then to the end of
-- its last complete line. After an error the old offset stays, so that the next tick reads again.
pub tail_file-offsets :
    (d : Decoder) (io : ℕ → Answer) (clock : ℕ → ℤ) (path other : String) (o : Opening)
    (b : TranscriptBridge)
    → lookup other (tail_file d io clock path o b).offsets ≡ (
        if str_eq path other && is_read o
        then some (behind_lines (or_zero (lookup path b.offsets)) o)
        else lookup other b.offsets)
unfolding tail_file
tail_file-offsets d io clock path other missing b = ground arith
tail_file-offsets d io clock path other failed b = ground arith
tail_file-offsets d io clock path other (opened v) b = elim (Bool-cases v.fault) [
  | inl e ↦ rw e (ground arith)
  | inr e ↦ elim (Bool-cases (str_eq path other)) [
    | inl f ↦ rw (e, lookup-put path other _ b.offsets, f) refl
    | inr f ↦ rw (e, lookup-put path other _ b.offsets, f) refl
  ]
]

-- ===== src/Agents/Transcript/Tail.antt =====
-- internal/agents/transcript.go: `tailFile` and `tickOnce`.
pub mod Lines
pub mod Growth
pub mod Offsets
use tracelab.Agents.Tables.{Answer}
use tracelab.Agents.Transcript.{Decoder}
use tracelab.Agents.Transcript.Persist.{World, tail_failed, discover_failed, process_line}
use tracelab.Prelude.{
  ℕ, ◌+◌, String, Bool, true, false, ◌&&◌, ◌||◌, Option, none, some, List, [], ◌∷◌, ◌++◌, ℤ, ltb,
  ◌==◌, if◌then◌else◌, length, drop, Bytes, Assoc, lookup, put,
}

pub record TranscriptBridge : Type 0 where
  pub offsets : Assoc ℕ
  pub world : World

-- The maps of a new bridge, with the tables that it finds.
abbrev pub new_bridge : World → TranscriptBridge
new_bridge w = record { offsets = []; world = w }

-- What `Stat` tells of a file and what is read of it: its size, then its bytes up to where the last
-- read ends, which is the end of the file or a fault.
pub record FileView : Type 0 where
  pub size : ℕ
  pub bytes : Bytes
  pub fault : Bool

-- A file that was read to its end without a fault, in one go.
abbrev pub whole : Bytes → FileView
whole bytes = record { size = length bytes; bytes = bytes; fault = false }

pub data Opening : Type 0 where
  missing : Opening
  failed : Opening
  opened : FileView → Opening

abbrev pub newline : ℕ
newline = 10

abbrev pub carriage_return : ℕ
carriage_return = 13

-- `bytes_trim`
abbrev pub is_empty : Bytes → Bool
is_empty [] = true
is_empty (c ∷ cs) = false

abbrev pub bytes_trim : Bytes → Bytes
bytes_trim [] = []
bytes_trim (c ∷ cs) =
    let rest = bytes_trim cs in
    if is_empty rest && (c == newline || c == carriage_return) then [] else c ∷ rest

-- The lines that `ReadBytes` gives with their newline; `cur` is the line that is being read.
unfoldable pub read_lines : Bytes → Bytes → List Bytes
read_lines cur [] = []
read_lines cur (c ∷ cs) =
    let ended = (cur ++ c ∷ []) ∷ read_lines [] cs in
    let longer = read_lines (cur ++ c ∷ []) cs in if c == newline then ended else longer

-- `consumed`
abbrev pub consumed : List Bytes → ℕ
consumed [] = 0
consumed (line ∷ lines) = length line + consumed lines

-- `b.offsets[path]`, where a missing key is 0.
abbrev pub or_zero : Option ℕ → ℕ
or_zero none = 0
or_zero (some n) = n

module _ (d : Decoder) (io : ℕ → Answer) (clock : ℕ → ℤ) where
  abbrev pub process_lines : String → List Bytes → World → World
  process_lines path [] w = w
  process_lines path (line ∷ lines) w =
      process_lines path lines
        (if is_empty (bytes_trim line) then w else process_line d io clock path (bytes_trim line) w)

  -- From the seek on.
  abbrev pub read_from : String → ℕ → FileView → TranscriptBridge → TranscriptBridge
  read_from path off v b =
      let lines = read_lines [] (drop off v.bytes) in
      let w = process_lines path lines b.world in
      if v.fault
      then record b { world = record w { log = tail_failed path ∷ w.log } }
      else record b { offsets = put path (off + consumed lines) b.offsets; world = w }

  -- `tailFile`, with the log entry that `tickOnce` makes of its error.
  unfoldable pub tail_file : String → Opening → TranscriptBridge → TranscriptBridge
  tail_file path missing b = b
  tail_file path failed b = record b {
    world = record b.world { log = tail_failed path ∷ b.world.log };
  }
  tail_file path (opened v) b =
      let off = or_zero (lookup path b.offsets) in
      read_from path (if ltb v.size off then 0 else off) v b

  abbrev pub tail_files : List (String × Opening) → TranscriptBridge → TranscriptBridge
  tail_files [] b = b
  tail_files ((path, o) ∷ files) b = tail_files files (tail_file path o b)

  -- `tickOnce`; `none` is an error of `discoverFiles`.
  unfoldable pub tick_once : Option (List (String × Opening)) → TranscriptBridge → TranscriptBridge
  tick_once none b = record b { world = record b.world { log = discover_failed ∷ b.world.log } }
  tick_once (some files) b = tail_files files b

  -- `Run`, by its ticks.
  abbrev pub run : List (Option (List (String × Opening))) → TranscriptBridge → TranscriptBridge
  run [] b = b
  run (t ∷ ts) b = run ts (tick_once t b)

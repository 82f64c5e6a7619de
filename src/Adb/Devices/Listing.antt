-- ===== src/Adb/Devices/Listing.antt =====
-- internal/adb/adb.go: `parseDevices`, of the lines that the scanner gives.
use tracelab.Adb.Devices.{Device, parse_device_fields}
use tracelab.Prelude.{
  ◌≡◌, refl, Bool, true, false, not, ◌&&◌, ◌||◌, Option, none, some, List, [], ◌∷◌, ◌++◌, Bytes,
  codes, ◌==◌, if◌then◌else◌, All, is_nil,
}
use tracelab.Adb.Logcat.Parse.{trim_cr}

-- `strings.HasPrefix`, of a text and a beginning of it.
abbrev pub has_prefix : Bytes → Bytes → Bool
has_prefix s [] = true
has_prefix [] (p ∷ ps) = false
has_prefix (c ∷ cs) (p ∷ ps) = c == p && has_prefix cs ps

abbrev add_device : Option Device → List Device → List Device
add_device none ds = ds
add_device (some d) ds = d ∷ ds

-- `strings.Fields` and `strings.TrimSpace`.
module _ (fields : Bytes → List Bytes) (trim_space : Bytes → Bytes) where
  abbrev pub trimmed : Bytes → Bytes
  trimmed raw = trim_space (trim_cr raw)

  -- A blank line, or one of the daemon's.
  abbrev pub is_preamble : Bytes → Bool
  is_preamble t = is_nil t || has_prefix t (codes "* ")

  -- The loop of `parseDevices`; the flag is `headerSeen`.
  unfoldable pub scan_devices : Bool → List Bytes → List Device
  scan_devices header_seen [] = []
  scan_devices header_seen (raw ∷ lines) =
      let t = trimmed raw in
      let skipped = scan_devices header_seen lines in
      let rest = scan_devices true lines in
      if is_preamble t
      then skipped
      else if not header_seen && has_prefix t (codes "List of devices")
      then rest
      else add_device (parse_device_fields (fields t)) rest

  abbrev pub parse_devices : List Bytes → List Device
  parse_devices lines = scan_devices false lines

  -- The rows that are devices, each row read alone.
  abbrev pub rows : List Bytes → List Device
  rows [] = []
  rows (raw ∷ lines) =
      if is_preamble (trimmed raw)
      then rows lines
      else add_device (parse_device_fields (fields (trimmed raw))) (rows lines)

  scan_devices-rows : (lines : List Bytes) → scan_devices true lines ≡ rows lines
  unfolding scan_devices
  scan_devices-rows [] = refl
  scan_devices-rows (raw ∷ lines) = rw (scan_devices-rows lines) refl

  -- What the daemon prints before the header does not matter, and the header is no device: the answer is
  -- the device of each row behind it, in order, and the rows that are no device are left out.
  pub parse_devices-rows :
      (banner : List Bytes) (header : Bytes) (lines : List Bytes)
      → All (λ (l : Bytes). is_preamble (trimmed l) ≡ true) banner
      → is_preamble (trimmed header) ≡ false
      → has_prefix (trimmed header) (codes "List of devices") ≡ true
      → parse_devices (banner ++ header ∷ lines) ≡ rows lines
  unfolding scan_devices
  parse_devices-rows [] header lines h n p = rw (n, p) (scan_devices-rows lines)
  parse_devices-rows (b ∷ bs) header lines h n p =
      rw h.0 (parse_devices-rows bs header lines h.1 n p)

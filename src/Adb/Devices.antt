-- ===== src/Adb/Devices.antt =====
-- internal/adb/adb.go: one row of `adb devices -l`, from its fields on.
--
-- `strings.Fields` is a library call: a row is the list of its fields, none of them empty.
pub mod Listing
pub mod Trailer
use tracelab.Prelude.{
  ℕ, ◌≡◌, refl, ap, Bool, true, false, ◌&&◌, ◌||◌, Option, none, some, List, [], ◌∷◌, ◌++◌, ℤ, pos,
  leb, ◌==◌, if◌then◌else◌, All, Bytes, codes, bytes_eq, atoi,
}

-- `Device`
pub record Device : Type 0 where
  pub serial : Bytes
  pub state : Bytes
  pub transport : Bytes
  pub product : Bytes
  pub model : Bytes
  pub device : Bytes
  pub transport_id : ℤ

-- A token at its first colon: what stands before it, and behind it.
abbrev before_colon : ℕ → Option (Bytes × Bytes) → Option (Bytes × Bytes)
before_colon c none = none
before_colon c (some (k, v)) = some (c ∷ k, v)

abbrev pub cut : Bytes → Option (Bytes × Bytes)
cut [] = none
cut (c ∷ cs) = if c == b':' then some ([], cs) else before_colon c (cut cs)

-- `idx <= 0 || idx == len(kv)-1`, negated
abbrev both : Option (Bytes × Bytes) → Option (Bytes × Bytes)
both none = none
both (some ([], v)) = none
both (some (c ∷ k, [])) = none
both (some (c ∷ k, d ∷ v)) = some (c ∷ k, d ∷ v)

abbrev pub key_value : Bytes → Option (Bytes × Bytes)
key_value tok = both (cut tok)

abbrev pub is_key_char : ℕ → Bool
is_key_char c = c == b'_' || leb b'a' c && leb c b'z' || leb b'A' c && leb c b'Z'

abbrev all_key_chars : Bytes → Bool
all_key_chars [] = true
all_key_chars (c ∷ cs) = is_key_char c && all_key_chars cs

abbrev has_key : Option (Bytes × Bytes) → Bool
has_key none = false
has_key (some (k, v)) = all_key_chars k

-- `isKeyValueToken`
unfoldable pub is_key_value_token : Bytes → Bool
is_key_value_token tok = has_key (key_value tok)

-- `strings.TrimRight(s, ";")`
abbrev cons_trimmed : ℕ → Bytes → Bytes
cons_trimmed c [] = if c == b';' then [] else c ∷ []
cons_trimmed c (d ∷ ds) = c ∷ d ∷ ds

abbrev pub trim_semicolons : Bytes → Bytes
trim_semicolons [] = []
trim_semicolons (c ∷ cs) = cons_trimmed c (trim_semicolons cs)

-- The loop over the trailer: the fields from the first `key:value` on.
unfoldable pub drop_trailer : List Bytes → List Bytes
drop_trailer [] = []
drop_trailer (f ∷ fs) = let rest = drop_trailer fs in if is_key_value_token f then f ∷ fs else rest

-- `extractState`, with the fields behind the state in place of their index.
unfoldable pub extract_state : List Bytes → Bytes × List Bytes
extract_state [] = ([], [])
extract_state (f ∷ []) = (f, [])
extract_state (f ∷ g ∷ fs) =
    let two = f ++ (codes " " ++ trim_semicolons g) in
    let rest = drop_trailer fs in
    if bytes_eq two (codes "no permissions") then (two, rest) else (f, g ∷ fs)

abbrev set_id : Option ℤ → Device → Device
set_id none d = d
set_id (some n) d = record d { transport_id = n }

-- One round of the loop over the tokens.
abbrev set_field : Option (Bytes × Bytes) → Device → Device
set_field none d = d
set_field (some (k, v)) d =
    if bytes_eq k (codes "transport")
    then record d { transport = v }
    else if bytes_eq k (codes "product")
    then record d { product = v }
    else if bytes_eq k (codes "model")
    then record d { model = v }
    else if bytes_eq k (codes "device")
    then record d { device = v }
    else if bytes_eq k (codes "transport_id")
    then set_id (atoi v) d
    else d

abbrev pub set_fields : List Bytes → Device → Device
set_fields [] d = d
set_fields (f ∷ fs) d = set_fields fs (set_field (key_value f) d)

-- `parseDeviceLine`, on the fields of the line; `none` for false.
unfoldable pub parse_device_fields : List Bytes → Option Device
parse_device_fields [] = none
parse_device_fields (serial ∷ []) = none
parse_device_fields (serial ∷ f ∷ fs) =
    let (state, rest) = extract_state (f ∷ fs) in
    some (
      set_fields rest (record {
        serial = serial;
        state = state;
        transport = [];
        product = [];
        model = [];
        device = [];
        transport_id = pos 0;
      }))

-- The fields that adb prints for a ready device whose product, model and code name are not empty.
abbrev pub print_ready : Bytes → Bytes → Bytes → Bytes → List Bytes
print_ready serial product model device =
    serial
    ∷ codes "device"
    ∷ (codes "product:" ++ product)
    ∷ (codes "model:" ++ model)
    ∷ (codes "device:" ++ device)
    ∷ []

-- A ready device is read back with what adb printed of it, colons in its values included.
pub parse_device_fields-print_ready :
    (serial : Bytes) (p m d : ℕ) (product model device : Bytes)
    → parse_device_fields (print_ready serial (p ∷ product) (m ∷ model) (d ∷ device))
      ≡ some (record {
        serial = serial;
        state = codes "device";
        transport = [];
        product = p ∷ product;
        model = m ∷ model;
        device = d ∷ device;
        transport_id = pos 0;
      })
unfolding parse_device_fields extract_state
parse_device_fields-print_ready serial p m d product model device = refl

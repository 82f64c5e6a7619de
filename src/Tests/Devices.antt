-- ===== src/Tests/Devices.antt =====
-- internal/adb/adb.go at concrete inputs.
use tracelab.Adb.Devices.{
  is_key_value_token, extract_state, parse_device_fields, print_ready,
  parse_device_fields-print_ready,
}
use tracelab.Adb.Devices.Trailer.{NoField, IsField-token, token-IsField, extract_state-trailer}
use tracelab.Prelude.{
  sym, ◌∙◌, Bool, false, arith, ◌≡◌, refl, true, some, List, [], ◌∷◌, ◌++◌, pos, codes, Bytes,
}

abbrev trailer : List Bytes
trailer = codes "user" ∷ codes "in" ∷ codes "[http://x]" ∷ []

ready_device :
    parse_device_fields (print_ready (codes "ab") (codes "sdk") (codes "px") (codes "emu"))
    ≡ some (record {
      serial = codes "ab";
      state = codes "device";
      transport = [];
      product = codes "sdk";
      model = codes "px";
      device = codes "emu";
      transport_id = pos 0;
    })
ready_device =
    parse_device_fields-print_ready (codes "ab") b's' b'p' b'e' (codes "dk") (codes "x")
      (codes "mu")

plain : (t : Bytes) → is_key_value_token t ≡ false → NoField t
plain t h f = let k : Path Bool true false = sym (IsField-token t f) ∙ h in ground (arith, k)

extract_state-trailer_example :
    extract_state
      (codes "no" ∷ (codes "permissions" ++ b';' ∷ []) ∷ (trailer ++ codes "transport_id:1" ∷ []))
    ≡ (codes "no permissions", codes "transport_id:1" ∷ [])
unfolding is_key_value_token
extract_state-trailer_example =
    extract_state-trailer 1 trailer (codes "transport_id:1" ∷ [])
      (plain (codes "user") refl, (plain (codes "in") refl, (plain (codes "[http://x]") refl, tt)))
      (token-IsField (codes "transport_id:1") refl)

-- A URL passes for a key and a value.
url_accepted : is_key_value_token (codes "http://x") ≡ true
unfolding is_key_value_token
url_accepted = refl

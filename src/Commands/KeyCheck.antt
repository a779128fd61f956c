-- ===== src/Commands/KeyCheck.antt =====
-- `PubKeyDuplicateCheck`, and the checks of authenticator data that two commands share.
use ctap2_test_tool.Base.{
  Action, Bool, Bytes, abort, bytes_eq, check, check_some, codes, drop, false, if◌then◌else◌,
  int_eq, leb, length, load_big_endian, negsuc, pure, take, true, ℕ, ℤ, ◌++◌, ◌==◌, ◌>>=◌, ◌>>◌,
}
use ctap2_test_tool.Cbor.{Cbor}
use ctap2_test_tool.Commands.{find_key, has_flag, on_key_checker}
use ctap2_test_tool.Constants.Numbers.{algorithm_number, es256, rs256}
use ctap2_test_tool.Crypto.{Library}
use ctap2_test_tool.Hid.Device.{HidDevice}
use ctap2_test_tool.ParameterCheck.{check_key}

module _ (cbor : Cbor) where
  open cbor use {Value, MapValue, of_int, as_map, as_integer, as_bytestring, find, read_consumed}

  unfoldable pub coordinate : MapValue → ℤ → Bytes → Bytes → Action HidDevice Bytes
  coordinate pub_key_map key missing not_bytes = do
    value ← check_some (find pub_key_map (of_int key)) missing
    check_some (as_bytestring value) not_bytes

  -- The bytes of the public key that must not repeat, by algorithm.
  unfoldable pub key_material : MapValue → ℤ → Action HidDevice Bytes
  unfolding coordinate algorithm_number
  key_material pub_key_map alg = elim (int_eq alg (algorithm_number es256)) [
    | true ↦ (do
      x ←
          coordinate pub_key_map (negsuc 1) (codes "key -2 not found in public key map")
            (codes "x coordinate entry is not a bytestring")
      y ←
          coordinate pub_key_map (negsuc 2) (codes "key -3 not found in public key map")
            (codes "y coordinate entry is not a bytestring")
      pure (x ++ y))
    | false ↦ elim (int_eq alg (algorithm_number rs256)) [
      | true ↦
          coordinate pub_key_map (negsuc 0) (codes "key -1 not found in public key map")
            (codes "the public key is not a bytestring")
      | false ↦ abort (codes "alg ")
    ]
  ]

  unfoldable pub pub_key_duplicate_check : Bytes → Action HidDevice ℕ
  unfolding key_material find_key on_key_checker check_key
  pub_key_duplicate_check pub_key_cose = do
    (decoded_pub_key, num_bytes_consumed) ←
        check_some (read_consumed pub_key_cose) (codes "CBOR decoding of public key failed")
    pub_key_map ← check_some (as_map decoded_pub_key) (codes "CBOR response is not a map")
    value ←
        check_some (find_key cbor 3 pub_key_map)
          (codes "no attStmt (key 3) in MakeCredential response")
    alg ← check_some (as_integer value) (codes "alg in public key map is not an integer")
    key ← key_material pub_key_map alg
    on_key_checker (check_key key)
    pure num_bytes_consumed

  -- The required entry of a response that is a byte string.
  unfoldable pub bytes_entry : ℕ → MapValue → Bytes → Bytes → Action HidDevice Bytes
  unfolding find_key
  bytes_entry key decoded_map missing not_bytes = do
    value ← check_some (find_key cbor key decoded_map) missing
    check_some (as_bytestring value) not_bytes

-- The hash of the relying party ID, which the first 32 bytes must be, and the flags after it.
unfoldable pub check_rp_id_hash :
    Library → Bytes → Action HidDevice Bytes → Action HidDevice (Unit {0})
check_rp_id_hash library auth_data extract_rp_id = do
  check (leb 32 (length auth_data)) (codes "authData is too small to fit the relying party ID hash")
  rp_id ← extract_rp_id
  check (length (library.sha256 rp_id) == 32) (codes "relying party ID hash is not 32 byte")
  check (bytes_eq (library.sha256 rp_id) (take 32 auth_data))
      (codes "unexpected relying party ID hash")
  check (leb 33 (length auth_data)) (codes "authData does not fit the flags")

-- A request with a PIN token must be answered with the user verification flag.
unfoldable pub check_verification_flag : Bool → ℕ → Action HidDevice (Unit {0})
unfolding has_flag
check_verification_flag has_token flags =
    if has_token
    then check (has_flag flags 0x04) (codes "no user verification flag despite auth token")
    else pure tt

unfoldable pub read_signature_counter : Bytes → Action HidDevice ℕ
unfolding load_big_endian
read_signature_counter auth_data = do
  check (leb 37 (length auth_data)) (codes "authData does not fit the counter")
  pure (load_big_endian (take 4 (drop 33 auth_data)))

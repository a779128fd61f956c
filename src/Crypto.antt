-- ===== src/Crypto.antt =====
-- src/crypto_utility.h and src/crypto_utility.cc. BoringSSL is the code of another project: its
-- calls are the fields of `Library`. A message of a failed `CHECK` is kept up to the first
-- number that the source streams into it.
use ctap2_test_tool.Base.{
  Action, Bool, Bytes, List, Option, [], check, check_some, codes, deref, false, if◌then◌else◌,
  int_eq, is_some, length, negsuc, none, pos, pure, some, take, true, ℕ, ℤ, ◌%◌, ◌==◌, ◌>>=◌, ◌>>◌,
  ◌∷◌,
}
use ctap2_test_tool.Cbor.{Cbor}
use ctap2_test_tool.Constants.Numbers.{algorithm_number, ecdh_es_hkdf256}

pub record Library : Type 0 where
  pub sha256 : Bytes → Bytes
  pub hmac_sha256 : Bytes → Bytes → Bytes
  pub ecdsa_signature_r : Bytes → Option Bytes
  pub aes_cbc_encrypt : Bytes → Bytes → Bytes
  pub aes_cbc_decrypt : Bytes → Bytes → Bytes
  -- The key pair that is generated as the given one in order, and the point received by its
  -- coordinates: the coordinates of the public key and the shared coordinate, where the calls
  -- on the curve succeed.
  pub ecdh : ℕ → Bytes → Bytes → Option (Bytes × Bytes × Bytes)

abbrev pub auth_token_size : ℕ
auth_token_size = 16

module _ (library : Library) where
  unfoldable pub aes256_cbc : {S : Type 0} → Bytes → Bytes → Bool → Action S Bytes
  aes256_cbc key message is_encrypt_mode = do
    check (length key == 32) (codes "secret does not have 256 bits")
    check (length message % 16 == 0) (codes "message size is not a multiple of AES block size")
    pure (
        if is_encrypt_mode
        then library.aes_cbc_encrypt key message
        else library.aes_cbc_decrypt key message)

  unfoldable pub extract_ecdsa_signature_r : {S : Type 0} → Bytes → Action S Bytes
  extract_ecdsa_signature_r ecdsa_signature =
      check_some (library.ecdsa_signature_r ecdsa_signature)
        (codes "ecdsa signature could not be decoded")

  unfoldable pub left_hmac_sha256 : Bytes → Bytes → Bytes
  left_hmac_sha256 secret message = take auth_token_size (library.hmac_sha256 secret message)

  unfoldable pub left_sha256_hash : Bytes → Bytes
  left_sha256_hash message = take auth_token_size (library.sha256 message)

module _ (cbor : Cbor) where
  open cbor use {Value, MapValue, as_integer, of_bytes, find, assign, empty_map, entries, same_type}

  abbrev entry : ℤ → Value → MapValue → MapValue
  entry key value cose_key = assign cose_key (cbor.of_int key) value

  unfoldable pub generate_example_ecdh_cose_key : MapValue
  generate_example_ecdh_cose_key =
      entry (negsuc 2)
        (of_bytes (
          0x9d ∷ 0x13 ∷ 0x28 ∷ 0x23 ∷ 0xed ∷ 0xd8 ∷ 0x52 ∷ 0xdc ∷ 0xc2 ∷ 0x1e ∷ 0x49 ∷ 0x23 ∷ 0x16
          ∷ 0x8d ∷ 0xf9 ∷ 0x6f ∷ 0xe6 ∷ 0x9e ∷ 0xa5 ∷ 0x91 ∷ 0xe1 ∷ 0xc2 ∷ 0xd1 ∷ 0x3e ∷ 0x98 ∷ 0xe4
          ∷ 0x92 ∷ 0x06 ∷ 0x73 ∷ 0xec ∷ 0x31 ∷ 0xb0 ∷ []))
        (entry (negsuc 1)
          (of_bytes (
            0xb2 ∷ 0x07 ∷ 0x17 ∷ 0xfb ∷ 0xc7 ∷ 0xc8 ∷ 0x25 ∷ 0x17 ∷ 0xf5 ∷ 0x11 ∷ 0x02 ∷ 0x7d ∷ 0x9e
            ∷ 0x80 ∷ 0x88 ∷ 0x8a ∷ 0xbd ∷ 0x33 ∷ 0xa1 ∷ 0x83 ∷ 0x7c ∷ 0xe8 ∷ 0x35 ∷ 0xa5 ∷ 0x0c
            ∷ 0xef ∷ 0xfd ∷ 0x4d ∷ 0xea ∷ 0x14 ∷ 0x33 ∷ 0x7b ∷ []))
          (entry (negsuc 0) (cbor.of_int (pos 1)) (
            entry (pos 3) (cbor.of_int (algorithm_number ecdh_es_hkdf256))
              (entry (pos 1) (cbor.of_int (pos 2)) empty_map))))

  -- Both are integers, and equal; a value that is no integer passes.
  unfoldable pub integers_agree : Option ℤ → Option ℤ → Bool
  integers_agree none j = true
  integers_agree (some i) none = false
  integers_agree (some i) (some j) = int_eq i j

  unfoldable pub check_cose_entry : {S : Type 0} → MapValue → Value → Value → Action S (Unit {0})
  unfolding integers_agree
  check_cose_entry correct_cose_key key value = do
    check (is_some (as_integer key)) (codes "COSE key for ECDH has a non-integer key")
    correct ←
        check_some (find correct_cose_key key) (codes "COSE key for ECDH has the invalid key ")
    check (same_type value correct) (codes "COSE key for ECDH has an invalid CBOR type at key ")
    check (integers_agree (as_integer value) (as_integer correct))
        (codes "COSE key for ECDH has an invalid value at key ")

  unfoldable pub check_cose_entries :
      {S : Type 0} → MapValue → List (Value × Value) → Action S (Unit {0})
  check_cose_entries correct_cose_key [] = pure tt
  check_cose_entries correct_cose_key ((key, value) ∷ rest) = do
    check_cose_entry correct_cose_key key value
    check_cose_entries correct_cose_key rest

  unfoldable pub check_cose_keys :
      {S : Type 0} → MapValue → List (Value × Value) → Action S (Unit {0})
  check_cose_keys cose_key [] = pure tt
  check_cose_keys cose_key ((key, value) ∷ rest) = do
    check (is_some (find cose_key key)) (codes "COSE key for ECDH is missing the key ")
    check_cose_keys cose_key rest

  unfoldable pub check_ecdh_cose_key : {S : Type 0} → MapValue → Action S (Unit {0})
  check_ecdh_cose_key cose_key = do
    check_cose_entries generate_example_ecdh_cose_key (entries cose_key)
    check_cose_keys cose_key (entries generate_example_ecdh_cose_key)

module _ (cbor : Cbor) (library : Library) where
  open cbor use {Value, MapValue, of_int, of_bytes, as_bytestring, find, assign}

  unfoldable pub write_public_key_to_cose_map : Bytes → Bytes → MapValue → MapValue
  unfolding algorithm_number
  write_public_key_to_cose_map x y m =
      assign
        (assign
          (assign
            (assign (assign m (of_int (pos 1)) (of_int (pos 2))) (of_int (pos 3))
              (of_int (algorithm_number ecdh_es_hkdf256)))
            (of_int (negsuc 0)) (of_int (pos 1)))
          (of_int (negsuc 1)) (of_bytes x))
        (of_int (negsuc 2)) (of_bytes y)

  -- `GetBytestring` checks the kind of value itself.
  unfoldable pub cose_coordinate : {S : Type 0} → ℤ → MapValue → Action S Bytes
  cose_coordinate key m = do
    value ← deref (find m (of_int key))
    check_some (as_bytestring value) (codes "Check failed: is_bytestring()")

  -- The shared secret, and the platform's public key written into the given map.
  unfoldable pub complete_ecdh_handshake :
      {S : Type 0} → ℕ → MapValue → MapValue → Action S (Bytes × MapValue)
  unfolding cose_coordinate write_public_key_to_cose_map
  complete_ecdh_handshake keys_generated public_key_in public_key_out = do
    x ← cose_coordinate (negsuc 1) public_key_in
    y ← cose_coordinate (negsuc 2) public_key_in
    (px, py, product) ←
        check_some (library.ecdh keys_generated x y) (codes "unable to generate secret EC key")
    pure (library.sha256 product, write_public_key_to_cose_map px py public_key_out)

-- ===== src/Commands/GetInfo.antt =====
-- `GetInfoPositiveTest`.
use ctap2_test_tool.Base.{
  Action, Bytes, List, [], check, check_some, codes, false, hex_padded, is_some, modify, pure, ◌++◌,
  ◌>>=◌, ◌>>◌,
}
use ctap2_test_tool.Cbor.{Cbor}
use ctap2_test_tool.Commands.{
  check_optional, decode_map, exchange, observe_keys, on_success, on_tracker,
}
use ctap2_test_tool.Commands.Members.{
  check_algorithms, check_at_least, check_options, check_unsigned_elements, check_versions,
  distinct_strings, member_entry, optional_array,
}
use ctap2_test_tool.Constants.Codes.{authenticator_get_info}
use ctap2_test_tool.Constants.Keys.{InfoMember, info_member_contains}
use ctap2_test_tool.Hid.Device.{HidDevice}
use ctap2_test_tool.Tracker.{Response, answer}
use ctap2_test_tool.Tracker.Initialize.{initialize}

module _ (cbor : Cbor) where
  open cbor use {Value, MapValue, as_map, as_bool, as_unsigned, as_bytestring, entries}

  -- The members 1 to 4, of which the tracker keeps three.
  unfoldable pub check_capabilities :
      {S : Type 0} → MapValue → Action S (List Value × List Value × MapValue)
  unfolding check_versions optional_array distinct_strings check_options member_entry
  check_capabilities m = do
    versions ← check_versions cbor m
    extensions ←
        optional_array cbor (member_entry cbor InfoMember.extensions m)
          (codes "extensions entry is not an array")
          (λ l.
            distinct_strings cbor (codes "extensions elements are not strings")
              (codes "duplicate extension in info") l []
            >> pure tt)
    aaguid ←
        check_some (member_entry cbor InfoMember.aaguid m)
          (codes "no AAGUID (key 3) in GetInfo response")
    check (is_some (as_bytestring aaguid)) (codes "aaguid entry is not a bytestring")
    options ← check_options cbor (member_entry cbor InfoMember.options m)
    pure (versions, extensions, options)

  -- The members 5 to 10.
  unfoldable pub check_limits : {S : Type 0} → MapValue → Action S (Unit {0})
  unfolding check_optional optional_array distinct_strings check_unsigned_elements check_algorithms
      member_entry
  check_limits m = do
    check_optional (member_entry cbor InfoMember.max_msg_size m) as_unsigned
        (codes "maxMsgSize entry is not an unsigned")
    optional_array cbor (member_entry cbor InfoMember.pin_uv_auth_protocols m)
        (codes "pinUvAuthProtocols entry is not an array")
        (check_unsigned_elements cbor (codes "pinUvAuthProtocols elements are not unsigned"))
    check_optional (member_entry cbor InfoMember.max_credential_count_in_list m) as_unsigned
        (codes "maxCredentialCountInList entry is not an unsigned")
    check_optional (member_entry cbor InfoMember.max_credential_id_length m) as_unsigned
        (codes "maxCredentialIdLength entry is not an unsigned")
    optional_array cbor (member_entry cbor InfoMember.transports m)
        (codes "transports entry is not an array")
        (λ l.
          distinct_strings cbor (codes "transports elements are not strings")
            (codes "duplicate transport in info") l []
          >> pure tt)
    optional_array cbor (member_entry cbor InfoMember.algorithms m)
        (codes "algorithms entry is not an array") (λ l. check_algorithms cbor l [])
    pure tt

  -- The members 11 to 21.
  unfoldable pub check_details : {S : Type 0} → MapValue → Action S (Unit {0})
  unfolding check_optional check_at_least optional_array check_unsigned_elements member_entry
  check_details m = do
    check_at_least cbor (member_entry cbor InfoMember.max_serialized_large_blob_array m) 1024
        (codes "maxSerializedLargeBlobArray entry is not an unsigned")
        (codes "maxSerializedLargeBlobArray is too small")
    check_optional (member_entry cbor InfoMember.force_pin_change m) as_bool
        (codes "forcePINChangeentry is not a bool")
    check_at_least cbor (member_entry cbor InfoMember.min_pin_length m) 4
        (codes "minPINLength entry is not an unsigned") (codes "minPINLength is too small")
    check_optional (member_entry cbor InfoMember.firmware_version m) as_unsigned
        (codes "firmwareVersion entry is not an unsigned")
    check_at_least cbor (member_entry cbor InfoMember.max_cred_blob_length m) 32
        (codes "maxCredBlobLength entry is not an unsigned")
        (codes "maxCredBlobLength is too small")
    check_optional (member_entry cbor InfoMember.max_rp_ids_for_set_min_pin_length m) as_unsigned
        (codes "maxRPIDsForSetMinPINLength entry is not an unsigned")
    check_optional (member_entry cbor InfoMember.preferred_platform_uv_attempts m) as_unsigned
        (codes "preferredPlatformUvAttempts entry is not an unsigned")
    check_optional (member_entry cbor InfoMember.uv_modality m) as_unsigned
        (codes "uvModality entry is not an unsigned")
    check_optional (member_entry cbor InfoMember.certifications m) as_map
        (codes "certifications entry is not a map")
    check_optional (member_entry cbor InfoMember.remaining_discoverable_credentials m) as_unsigned
        (codes "remainingDiscoverableCredentials entry is not an unsigned")
    optional_array cbor (member_entry cbor InfoMember.vendor_prototype_config_commands m)
        (codes "vendorPrototypeConfigCommands entry is not an array")
        (check_unsigned_elements cbor
          (codes "vendorPrototypeConfigCommands elements are not unsigned"))
    pure tt

  unfoldable pub read_get_info_response : Bytes → Action HidDevice (Response Value)
  unfolding decode_map check_capabilities check_limits check_details observe_keys on_tracker
      initialize info_member_contains
  read_get_info_response resp_cbor = do
    (decoded_response, decoded_map) ← decode_map cbor resp_cbor
    (versions, extensions, options) ← check_capabilities decoded_map
    check_limits decoded_map
    check_details decoded_map
    observe_keys cbor info_member_contains
        (λ map_key.
          codes "Received unspecified GetInfo map key " ++ hex_padded map_key ++ codes ".")
        (codes "Some GetInfo map keys are not unsigned.") (entries decoded_map)
    on_tracker (modify (initialize cbor versions extensions options))
    pure (answer decoded_response)

  unfoldable pub get_info_positive_test : Action HidDevice (Response Value)
  unfolding exchange on_success read_get_info_response
  get_info_positive_test =
      exchange authenticator_get_info [] false >>= on_success read_get_info_response

-- ===== src/CborBuilders/Defaults.antt =====
-- The functions `AddDefaults...` of the three builders, as one operation on a list of defaults.
use ctap2_test_tool.Base.{
  ==_iff, Bool-cases, Bytes, List, Option, [], ap, arith, codes, if◌then◌else◌, inl, inr, negsuc,
  none, pos, replicate, some, subst, ℕ, ◌==◌, ◌∙◌, ◌∷◌, ◌≡◌, ◌≢◌,
}
use ctap2_test_tool.Cbor.{Cbor, CborLaws}
use ctap2_test_tool.CborBuilders.{has_entry, set_arbitrary_map_entry, unless_entry}
use ctap2_test_tool.CborBuilders.ClientPin.{
  add_defaults_for_change_pin, set_default_pin_protocol, set_key_agreement, set_new_pin_enc,
  set_pin_auth, set_pin_hash_enc, set_sub_command,
}
use ctap2_test_tool.CborBuilders.GetAssertion.{
  add_required_fields, set_client_data_hash, set_relying_party,
}
use ctap2_test_tool.CborBuilders.MakeCredential.{
  add_defaults_for_required_fields, set_default_client_data_hash,
  set_default_public_key_credential_rp_entity, set_default_public_key_credential_user_entity,
  set_es256_credential_parameters, set_public_key_credential_user_entity,
}
use ctap2_test_tool.Constants.Keys.{
  client_pin_parameters_key, get_assertion_parameters_key, make_credential_parameters_key,
}
use ctap2_test_tool.Constants.Numbers.{algorithm_number, pin_sub_command_number}

abbrev pub or_else : {A : Type 0} → Option A → Option A → Option A
or_else none b = b
or_else (some a) b = some a

abbrev pub value_of : {V : Type 0} → ℕ → List (ℕ × V) → Option V
value_of j [] = none
value_of j ((k, v) ∷ l) = if k == j then some v else value_of j l

module _ (cbor : Cbor) where
  open cbor use {
    Value, MapValue, of_int, of_string, of_bytes, of_array, of_map, find, assign, empty_map,
  }

  abbrev pub fill : List (ℕ × Value) → MapValue → MapValue
  fill [] m = m
  fill ((k, v) ∷ l) m = fill l (unless_entry cbor k (set_arbitrary_map_entry cbor k v) m)

  unless_same :
      (laws : CborLaws cbor) (k : ℕ) (v : Value) (m : MapValue) (rest : Option Value)
      → or_else
          (find (unless_entry cbor k (set_arbitrary_map_entry cbor k v) m) (of_int (pos k)))
          rest
        ≡ or_else (find m (of_int (pos k))) (some v)
  unfolding unless_entry has_entry set_arbitrary_map_entry
  unless_same laws k v m rest = ground (arith, laws.find-assign_self m (pos k) v)

  unless_other :
      (laws : CborLaws cbor) (k j : ℕ) (v : Value) (m : MapValue)
      → k ≢ j
      → find (unless_entry cbor k (set_arbitrary_map_entry cbor k v) m) (of_int (pos j))
        ≡ find m (of_int (pos j))
  unfolding unless_entry has_entry set_arbitrary_map_entry
  unless_other laws k j v m n =
      let ne : pos k ≢ pos j = λ e. ground arith in
      ground (arith, laws.find-assign_ne m (pos k) (pos j) v ne)

  unless_lem :
      (laws : CborLaws cbor) (k j : ℕ) (v : Value) (m : MapValue) (rest : Option Value)
      → or_else
          (find (unless_entry cbor k (set_arbitrary_map_entry cbor k v) m) (of_int (pos j)))
          rest
        ≡ or_else (find m (of_int (pos j))) (if k == j then some v else rest)
  unless_lem laws k j v m rest = elim (Bool-cases (k == j)) [
    | inl y ↦ rw y (
        subst
          (λ (i : ℕ).
            or_else
              (find (unless_entry cbor k (set_arbitrary_map_entry cbor k v) m) (of_int (pos i)))
              rest
            ≡ or_else (find m (of_int (pos i))) (some v))
          ((==_iff k j).0 y) (unless_same laws k v m rest))
    | inr y ↦ rw y (
        ap (λ (o : Option Value). or_else o rest)
          (unless_other laws k j v m (λ e. ground (arith, y, e))))
  ]

  find-fill :
      (laws : CborLaws cbor) (l : List (ℕ × Value)) (m : MapValue) (j : ℕ)
      → find (fill l m) (of_int (pos j)) ≡ or_else (find m (of_int (pos j))) (value_of j l)
  find-fill laws [] m j = ground arith
  find-fill laws ((k, v) ∷ l) m j =
      find-fill laws l (unless_entry cbor k (set_arbitrary_map_entry cbor k v) m) j
      ∙ unless_lem laws k j v m (value_of j l)

  abbrev public_key : Bytes → Value → Value
  public_key name value = of_map (
      assign (assign empty_map (of_string (codes "alg")) value) (of_string (codes "type"))
        (of_string name))

  abbrev pub make_credential_defaults : Bytes → List (ℕ × Value)
  make_credential_defaults rp_id =
      (1, of_bytes (replicate 32 0xcd))
      ∷ (2, of_map (assign empty_map (of_string (codes "id")) (of_string rp_id)))
      ∷ (
        3,
        of_map (
            assign (assign empty_map (of_string (codes "id")) (of_bytes (replicate 32 0x1D)))
              (of_string (codes "name")) (of_string (codes "Adam"))),
      )
      ∷ (4, of_array (public_key (codes "public-key") (of_int (negsuc 6)) ∷ []))
      ∷ []

  -- After the defaults of MakeCredential, an entry that the request had is unchanged, a required
  -- entry that it lacked (keys 1 to 4) has its default, and no other entry appears.
  pub add_defaults_for_required_fields_lem :
      (laws : CborLaws cbor) (rp_id : Bytes) (request : MapValue) (key : ℕ)
      → find (add_defaults_for_required_fields cbor rp_id request) (of_int (pos key))
        ≡ or_else (find request (of_int (pos key))) (value_of key (make_credential_defaults rp_id))
  unfolding add_defaults_for_required_fields set_default_client_data_hash
      set_default_public_key_credential_rp_entity set_default_public_key_credential_user_entity
      set_public_key_credential_user_entity set_es256_credential_parameters algorithm_number
      make_credential_parameters_key
  add_defaults_for_required_fields_lem laws rp_id request key =
      find-fill laws (make_credential_defaults rp_id) request key

  abbrev pub get_assertion_defaults : Bytes → List (ℕ × Value)
  get_assertion_defaults rp_id = (1, of_string rp_id) ∷ (2, of_bytes (replicate 32 0xcd)) ∷ []

  -- The same for GetAssertion, whose required entries have the keys 1 and 2.
  pub add_required_fields_lem :
      (laws : CborLaws cbor) (rp_id : Bytes) (request : MapValue) (key : ℕ)
      → find (add_required_fields cbor rp_id request) (of_int (pos key))
        ≡ or_else (find request (of_int (pos key))) (value_of key (get_assertion_defaults rp_id))
  unfolding add_required_fields set_relying_party set_client_data_hash get_assertion_parameters_key
  add_required_fields_lem laws rp_id request key =
      find-fill laws (get_assertion_defaults rp_id) request key

  abbrev pub change_pin_defaults : MapValue → Bytes → Bytes → Bytes → List (ℕ × Value)
  change_pin_defaults cose_key pin_auth new_pin_enc pin_hash_enc =
      (1, of_int (pos 1))
      ∷ (2, of_int (pos 4))
      ∷ (3, of_map cose_key)
      ∷ (4, of_bytes pin_auth)
      ∷ (5, of_bytes new_pin_enc)
      ∷ (6, of_bytes pin_hash_enc)
      ∷ []

  -- The same for the subcommand that changes the PIN: protocol 1, subcommand 4, the key of the
  -- platform, and the three byte strings, under the keys 1 to 6.
  pub add_defaults_for_change_pin_lem :
      (laws : CborLaws cbor) (cose_key : MapValue) (pin_auth new_pin_enc pin_hash_enc : Bytes)
      (request : MapValue) (key : ℕ)
      → find
          (add_defaults_for_change_pin cbor cose_key pin_auth new_pin_enc pin_hash_enc request)
          (of_int (pos key))
        ≡ or_else
            (find request (of_int (pos key)))
            (value_of key (change_pin_defaults cose_key pin_auth new_pin_enc pin_hash_enc))
  unfolding add_defaults_for_change_pin set_default_pin_protocol set_sub_command set_key_agreement
      set_pin_auth set_new_pin_enc set_pin_hash_enc client_pin_parameters_key pin_sub_command_number
  add_defaults_for_change_pin_lem laws cose_key pin_auth new_pin_enc pin_hash_enc request key =
      find-fill laws (change_pin_defaults cose_key pin_auth new_pin_enc pin_hash_enc) request key

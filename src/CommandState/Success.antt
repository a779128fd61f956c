-- ===== src/CommandState/Success.antt =====
-- What a successful SetPin leaves in the state.
use ctap2_test_tool.Base.{
  Bool-cases, Bytes, [], arith, bind_done, codes, done, false, inl, inr, is_empty, length, pure,
  refl, subst, sym, true, ◌>>=◌, ◌∷◌, ◌≡◌, ◌≢◌, ◌≤◌,
}
use ctap2_test_tool.Cbor.{Cbor}
use ctap2_test_tool.CommandState.{
  CommandState, ensure_shared_secret, fail_again, note, ok_or_return, on_device,
}
use ctap2_test_tool.CommandState.Pin.{
  check_pin_length, padded_pin, set_new_pin, set_pin, set_pin_request, store_pin, unless_pin,
}
use ctap2_test_tool.Commands.{encode_request, exchange, on_success}
use ctap2_test_tool.Commands.ClientPin.{
  authenticator_client_pin_positive_test, read_client_pin_response,
}
use ctap2_test_tool.Constants.Codes.{Status, err_none, status_byte, status_eq}
use ctap2_test_tool.Crypto.{Library}
use ctap2_test_tool.Hid.Device.{HidDevice}
use ctap2_test_tool.Tracker.{Response, answer, failure}

success_eq : status_eq err_none err_none ≡ true
unfolding status_eq status_byte
success_eq = refl

not_empty : (xs : Bytes) → 4 ≤ length xs → is_empty xs ≡ false
not_empty [] l = absurd (omega arith)
not_empty (x ∷ xs) l = refl

module _ (cbor : Cbor) (library : Library) where
  open cbor use {Value}

  -- A positive test never fails with the status of success.
  abbrev Failing : Response Value → Type 0
  Failing (answer value) = Unit
  Failing (failure status) = status_eq status err_none ≡ false

  client_pin-Failing :
      (request : Value) (d d' : HidDevice) (r : Response Value)
      → authenticator_client_pin_positive_test cbor request d ≡ (done r, d')
      → Failing r
  unfolding authenticator_client_pin_positive_test encode_request exchange on_success
      read_client_pin_response
  client_pin-Failing request d d' (answer value) e = tt
  client_pin-Failing request d d' (failure status) e = ground (arith, e)

  -- After a failed command, success is not reported.
  fail_again-fails :
      (status : Status) (s s' : CommandState cbor)
      → status_eq status err_none ≡ false
      → (fail_again cbor library status s) ≢ (done err_none, s')
  unfolding fail_again ok_or_return status_eq status_byte
  fail_again-fails status s s' h e =
      let good : status_eq err_none err_none ≡ true = refl in ground (arith, e, h, good)

  store_pin-pin :
      (message pin : Bytes) (r : Response Value) (s s' : CommandState cbor)
      → Failing r
      → store_pin cbor library message pin r s ≡ (done err_none, s')
      → s'.pin_utf8 ≡ pin
  unfolding store_pin
  store_pin-pin message pin (answer value) s s' h e = ground (arith, e)
  store_pin-pin message pin (failure status) s s' h e =
      let (a, r, e') =
        bind_done (note cbor library message) (λ _. fail_again cbor library status) s s' err_none
          e in
      absurd (fail_again-fails status (note cbor library message s).1 s' h e')

  set_new_pin-pin :
      (pin : Bytes) (s s' : CommandState cbor)
      → set_new_pin cbor library pin s ≡ (done err_none, s')
      → (s'.pin_utf8 ≡ pin) × (4 ≤ length pin)
  unfolding set_new_pin check_pin_length on_device
  set_new_pin-pin pin s s' e =
      let send = λ (request : Value).
        on_device cbor library (authenticator_client_pin_positive_test cbor request) in
      let store = store_pin cbor library (codes "SetPin failed.") pin in
      let prepare = set_pin_request cbor library (padded_pin pin) in
      let (_, ok, e1) =
        bind_done (check_pin_length pin) (λ _. prepare >>= λ request. send request >>= store) s s'
          err_none e in
      let s1 = (check_pin_length pin s).1 in
      let (request, _, e2) =
        bind_done prepare (λ request. send request >>= store) s1 s' err_none e1 in
      let s2 = (prepare s1).1 in
      let (response, sent, e3) = bind_done (send request) store s2 s' err_none e2 in
      let call = authenticator_client_pin_positive_test cbor request s2.device in
      let failing = client_pin-Failing request s2.device call.1 response (λ i. (sent i, call.1)) in
      (
        store_pin-pin (codes "SetPin failed.") pin response (send request s2).1 s' failing e3,
        ground (arith, ok),
      )

  unless_pin-has_pin :
      (pin : Bytes) (s s' : CommandState cbor)
      → unless_pin cbor library (set_new_pin cbor library pin) s ≡ (done err_none, s')
      → is_empty s'.pin_utf8 ≡ false
  unfolding unless_pin
  unless_pin-has_pin pin s s' e = elim (Bool-cases (is_empty s.pin_utf8)) [
    | inl y ↦
        let (p, l) = set_new_pin-pin pin s s' (ground (arith, e, y)) in
        subst (λ (x : Bytes). is_empty x ≡ false) (sym p) (not_empty pin l)
    | inr y ↦ ground (arith, e, y)
  ]

  -- A SetPin that reports success leaves a PIN in the state, whether it found one there or set the
  -- new one on the device.
  pub set_pin-has_pin :
      (pin : Bytes) (s s' : CommandState cbor)
      → set_pin cbor library pin s ≡ (done err_none, s')
      → is_empty s'.pin_utf8 ≡ false
  unfolding set_pin ok_or_return
  set_pin-has_pin pin s s' e =
      let next = unless_pin cbor library (set_new_pin cbor library pin) in
      let (a, r, e') =
        bind_done (ensure_shared_secret cbor library)
          (λ a. elim (status_eq a err_none) [ false ↦ pure a | true ↦ next ]) s s' err_none e in
      let t = (ensure_shared_secret cbor library s).1 in
      elim (Bool-cases (status_eq a err_none)) [
        | inl y ↦ unless_pin-has_pin pin t s' (ground (arith, e', y))
        | inr y ↦ absurd (ground (arith, e', y, success_eq))
      ]

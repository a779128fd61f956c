-- ===== src/CommandState/Facts.antt =====
-- What the operations leave in the state.
use ctap2_test_tool.Base.{[], arith, done, ◌≡◌}
use ctap2_test_tool.Cbor.{Cbor}
use ctap2_test_tool.CommandState.{CommandState}
use ctap2_test_tool.CommandState.Setup.{reset}
use ctap2_test_tool.Crypto.{Library}

module _ (cbor : Cbor) (library : Library) where
  -- After a reset the platform knows no key, no shared secret, no PIN and no token.
  pub reset_lem :
      (s s' : CommandState cbor)
      → reset cbor library s ≡ (done tt, s')
      → (s'.platform_cose_key ≡ cbor.empty_map)
        × (s'.shared_secret ≡ [])
        × (s'.pin_utf8 ≡ [])
        × (s'.auth_token ≡ [])
  unfolding reset
  reset_lem s s' e = ground arith

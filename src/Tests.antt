-- ===== src/Tests.antt =====
-- src/tests: the tests and their running. A test acts on a session; what `Execute` returns is the
-- error message of a failed test, or none.
pub mod Series
pub mod Steps
pub mod Logged
pub mod SeriesLog
pub mod Credentials
pub mod Helpers
pub mod BadTypes
pub mod Missing
pub mod Reset
pub mod General
pub mod Requests
pub mod PinRetries
pub mod ClientPin
pub mod GetAssertion
pub mod AssertionAuth
pub mod AssertionTests
pub mod MakeCredential
pub mod CredentialOptions
pub mod CredentialStore
pub mod CredentialTests
pub mod Catalogue
pub mod Corpus
pub mod Refinement
use ctap2_test_tool.Base.{
  Action, Bool, Bytes, List, Option, [], codes, false, map, true, ◌++◌, ◌||◌, ◌∷◌,
}
use ctap2_test_tool.Cbor.{Cbor}
use ctap2_test_tool.CommandState.{on_device}
use ctap2_test_tool.CommandState.Setup.{has_pin, prepare}
use ctap2_test_tool.Commands.{on_tracker}
use ctap2_test_tool.Crypto.{Library}
use ctap2_test_tool.Hid.Device.{HidDevice}
use ctap2_test_tool.Monitors.{Session, on_command_state}
use ctap2_test_tool.Tracker.{DeviceTracker}

-- `Tag` of src/tests/base.h.
pub data Tag : Type 0 where
  tag_client_pin tag_fido2_point1 tag_fuzzing tag_hmac_secret : Tag

unfoldable pub tag_to_string : Tag → Bytes
tag_to_string tag_client_pin = codes "Client PIN"
tag_to_string tag_fido2_point1 = codes "FIDO 2.1"
tag_to_string tag_fuzzing = codes "Fuzzing"
tag_to_string tag_hmac_secret = codes "HMAC Secret"

abbrev pub tag_eq : Tag → Tag → Bool
tag_eq tag_client_pin tag_client_pin = true
tag_eq tag_fido2_point1 tag_fido2_point1 = true
tag_eq tag_fuzzing tag_fuzzing = true
tag_eq tag_hmac_secret tag_hmac_secret = true
tag_eq _ _ = false

-- `BaseTest`. The set of tags is the list of them in the order of its iteration, and the virtual
-- functions are fields.
pub record BaseTest (cbor : Cbor) : Type 0 where
  pub id : Bytes
  pub description : Bytes
  pub tags : List Tag
  pub setup : Action (Session cbor) (Unit {0})
  pub execute : Action (Session cbor) (Option Bytes)

unfoldable pub in_tags : Tag → List Tag → Bool
in_tags tag [] = false
in_tags tag (t ∷ ts) = tag_eq t tag || in_tags tag ts

module _ {cbor : Cbor} where
  unfoldable pub has_tag : Tag → BaseTest cbor → Bool
  unfolding in_tags
  has_tag tag test = in_tags tag test.tags

  unfoldable pub list_tags : BaseTest cbor → List Bytes
  unfolding tag_to_string
  list_tags test = map tag_to_string test.tags

-- The identifier of a relying party for a test.
unfoldable pub rp_id_of : Bytes → Bytes
rp_id_of test_id = test_id ++ codes ".example.com"

module _ (cbor : Cbor) (library : Library) where
  -- `BaseTest::Setup`, given `preconditions_.has_pin`.
  unfoldable pub base_setup : Bool → Action (Session cbor) (Unit {0})
  unfolding on_command_state prepare
  base_setup has_pin = on_command_state (prepare cbor library has_pin)

  -- A step on the device, and one on its tracker.
  unfoldable pub on_hid : {A : Type 0} → Action HidDevice A → Action (Session cbor) A
  unfolding on_command_state on_device
  on_hid step = on_command_state (on_device cbor library step)

  unfoldable pub track : {A : Type 0} → Action DeviceTracker A → Action (Session cbor) A
  unfolding on_hid on_tracker
  track step = on_hid (on_tracker step)

-- ===== src/Tracker/Results.antt =====
-- The results document: `TestResult::ToJson`, `ReportFindings` and `GenerateResultsJson`. A JSON
-- object is a record with the keys of the source; the constant entries `url` (null) and
-- `transport_used` ("HID") are left out.
use ctap2_test_tool.Base.{
  Bool, Bytes, List, Option, [], arith, bytes_eq, codes, hex2, if◌then◌else◌, is_some, length, map,
  none, refl, some, ℕ, ◌%◌, ◌++◌, ◌+◌, ◌-◌, ◌/◌, ◌∷◌, ◌≡◌,
}
use ctap2_test_tool.ParameterCheck.{report_findings}
use ctap2_test_tool.Tracker.{DeviceTracker, TestResult}

pub record TestJson : Type 0 where
  pub id : Bytes
  pub description : Bytes
  pub observations : List Bytes
  pub tags : List Bytes
  pub result : Bytes
  -- `none` is the null that the source writes for a passed test.
  pub error_message : Option Bytes

unfoldable pub test_result_to_json : TestResult → TestJson
test_result_to_json r = elim r.error_message [
  | none ↦ record {
    id = r.test_id;
    description = r.test_description;
    observations = r.observations;
    tags = r.tags;
    result = codes "pass";
    error_message = none;
  }
  | some message ↦ record {
    id = r.test_id;
    description = r.test_description;
    observations = r.observations;
    tags = r.tags;
    result = codes "fail";
    error_message = some message;
  }
]

-- The loop that counts failed tests, in `ReportFindings` and in `GenerateResultsJson`.
unfoldable pub count_failed : List TestResult → ℕ → ℕ
count_failed [] failed_test_count = failed_test_count
count_failed (test ∷ rest) failed_test_count =
    count_failed rest
      (if is_some test.error_message then failed_test_count + 1 else failed_test_count)

pub record ResultsJson : Type 0 where
  pub passed_test_count : ℕ
  pub total_test_count : ℕ
  pub date : Bytes
  pub commit : Bytes
  pub manufacturer : Bytes
  pub product_name : Bytes
  pub serial_number : Bytes
  pub vendor_id : Bytes
  pub product_id : Bytes
  pub aaguid : Bytes
  pub versions : List Bytes
  pub options : List Bytes
  pub extensions : List Bytes
  pub has_wink : Bool
  pub cbor : Bool
  pub msg : Bool
  pub signature_counter : Bytes
  pub tests : List TestJson

-- `"0x"` and `absl::Hex(id, absl::kZeroPad4)` of a uint16_t.
unfoldable pub hex_id : ℕ → Bytes
unfolding hex2
hex_id n = codes "0x" ++ (hex2 (n / 256) ++ hex2 (n % 256))

unfoldable pub generate_results_json : Bytes → Bytes → DeviceTracker → ResultsJson
generate_results_json commit_hash time_string t = record {
  passed_test_count = length t.tests - count_failed t.tests 0;
  total_test_count = length t.tests;
  date = time_string;
  commit = commit_hash;
  manufacturer = t.device_identifiers.manufacturer;
  product_name = t.device_identifiers.product_name;
  serial_number = t.device_identifiers.serial_number;
  vendor_id = hex_id t.device_identifiers.vendor_id;
  product_id = hex_id t.device_identifiers.product_id;
  aaguid = t.aaguid;
  versions = t.versions;
  options = t.options;
  extensions = t.extensions;
  has_wink = t.has_wink_capability;
  cbor = t.has_cbor_capability;
  msg = t.has_msg_capability;
  signature_counter = report_findings t.counter_checker;
  tests = map test_result_to_json t.tests;
}

-- The pair that `ReportFindings` prints: passed tests and all tests.
unfoldable pub report_counts : DeviceTracker → ℕ × ℕ
report_counts t = (length t.tests - count_failed t.tests 0, length t.tests)

-- How many entries of the document have the given result.
unfoldable pub count_result : Bytes → List TestJson → ℕ
count_result r [] = 0
count_result r (j ∷ js) = (if bytes_eq j.result r then 1 else 0) + count_result r js

count_failed-add :
    (l : List TestResult) (n : ℕ)
    → count_failed l n ≡ n + count_result (codes "fail") (map test_result_to_json l)
unfolding count_failed count_result test_result_to_json bytes_eq
count_failed-add [] n = omega arith
count_failed-add (r ∷ l) n = ground (arith, count_failed-add l n, count_failed-add l (n + 1))

count_results :
    (l : List TestResult)
    → count_result (codes "fail") (map test_result_to_json l)
        + count_result (codes "pass") (map test_result_to_json l)
      ≡ length l
unfolding count_result test_result_to_json bytes_eq
count_results [] = omega arith
count_results (r ∷ l) = ground (arith, count_results l)

-- The document counts as passed exactly the entries whose result is "pass", it counts all logged
-- tests in total, and the numbers that `ReportFindings` prints are the same two.
pub results_counts_agree :
    (commit_hash time_string : Bytes) (t : DeviceTracker)
    → let doc = generate_results_json commit_hash time_string t in
      (doc.passed_test_count ≡ count_result (codes "pass") doc.tests)
      × (doc.total_test_count
          ≡ count_result (codes "pass") doc.tests + count_result (codes "fail") doc.tests)
      × (report_counts t ≡ (doc.passed_test_count, doc.total_test_count))
unfolding generate_results_json report_counts
results_counts_agree commit_hash time_string t = (
  omega (arith, count_failed-add t.tests 0, count_results t.tests),
  omega (arith, count_results t.tests),
  refl,
)

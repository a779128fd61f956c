-- ===== src/ParameterCheck.antt =====
-- src/parameter_check.h and src/parameter_check.cc. The hash of `KeyChecker` and `CounterChecker`
-- only places the entries of their tables, so a table is a list here.
pub mod Keys
pub mod Counters
pub mod Report
use ctap2_test_tool.Base.{
  Action, Bool, Bytes, List, [], check, check_some, codes, false, gets, if◌then◌else◌, insert,
  is_some, leb, lookup, member, modify, not, set_insert, true, ℕ, ◌%◌, ◌+◌, ◌==◌, ◌>>=◌, ◌>>◌, ◌^◌,
}

pub record KeyChecker : Type 0 where
  pub key_set : List Bytes

abbrev pub new_key_checker : List Bytes → KeyChecker
new_key_checker common_keys = record { key_set = common_keys }

unfoldable pub check_key : Bytes → Action KeyChecker (Unit {0})
check_key key = do
  seen ← gets (λ k. member key k.key_set)
  check (not seen) (codes "key is either a duplicate or too common")
  modify (λ k. record k { key_set = set_insert key k.key_set })

-- Counter values are of type uint32_t.
pub record CounterChecker : Type 0 where
  pub counter_map : List (Bytes × ℕ)
  pub could_be_global : Bool
  pub could_be_individual : Bool
  pub could_be_zero : Bool

abbrev pub new_counter_checker : CounterChecker
new_counter_checker = record {
  counter_map = [];
  could_be_global = true;
  could_be_individual = true;
  could_be_zero = true;
}

unfoldable pub register_counter : Bytes → ℕ → Action CounterChecker (Unit {0})
register_counter id start_value = do
  known ← gets (λ c. is_some (lookup id c.counter_map))
  check (not known) (codes "trying to register the same counter twice")
  modify (λ c. record c {
    could_be_zero = if start_value == 0 then c.could_be_zero else false;
    counter_map = insert id start_value c.counter_map;
  })

-- The tests of `CheckCounter` against the stored value. The sum wraps as uint32_t does.
unfoldable pub compare_counter : ℕ → ℕ → CounterChecker → CounterChecker
compare_counter last_value value c = record c {
  could_be_global = if leb value last_value then false else c.could_be_global;
  could_be_individual = if value == (last_value + 1) % 2 ^ 32 then c.could_be_individual else false;
  could_be_zero = if value == 0 then c.could_be_zero else false;
}

unfoldable pub check_counter : Bytes → ℕ → Action CounterChecker (Unit {0})
unfolding compare_counter
check_counter id value = do
  found ← gets (λ c. lookup id c.counter_map)
  last_value ← check_some found (codes "counter is not registered yet")
  modify (compare_counter last_value value)
  modify (λ c. record c { counter_map = insert id value c.counter_map })

unfoldable pub report_findings : CounterChecker → Bytes
report_findings c =
    if c.could_be_zero
    then codes "All counters were constant zero."
    else if c.could_be_individual
    then codes "All counters were strictly incremented by 1."
    else if c.could_be_global
    then codes "All counters were strictly increasing, but not necessarily incremented by 1."
    else codes "There were counters that were not strictly increasing."

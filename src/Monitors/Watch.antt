-- ===== src/Monitors/Watch.antt =====
-- The virtual functions of `Monitor` in a session.
use ctap2_test_tool.Base.{
  Action, Bool, Bytes, List, [], bytes_eq, codes, false, gets, modify, not, pure, suc, true, zero,
  ℕ, ◌++◌, ◌>>=◌, ◌>>◌, ◌||◌, ◌∷◌,
}
use ctap2_test_tool.Cbor.{Cbor}
use ctap2_test_tool.CommandState.{CommandState}
use ctap2_test_tool.CommandState.Setup.{prompt_replug_and_init}
use ctap2_test_tool.CommandState.Token.{get_auth_token}
use ctap2_test_tool.Constants.Codes.{Status, err_none, status_eq, status_to_string}
use ctap2_test_tool.Crypto.{Library}
use ctap2_test_tool.Monitors.{
  Monitor, Session, blackbox, cortexm4_gdb, gdb, on_command_state, on_monitor, print_crash,
}
use ctap2_test_tool.Monitors.Cortex.{cortex_print_crash_report}
use ctap2_test_tool.Monitors.Gdb.{
  attach_gdb, gdb_continue, gdb_device_crashed, gdb_print_crash_report,
}
use ctap2_test_tool.Rsp.Connection.{SocketCalls}

module _ (cbor : Cbor) (library : Library) where
  -- The loop of `BlackboxMonitor::DeviceCrashed`: the last status, and the observations.
  unfoldable pub token_attempts :
      ℕ → Status → List Bytes → Action (CommandState cbor) (Status × List Bytes)
  unfolding get_auth_token status_eq
  token_attempts zero status observed = pure (status, observed)
  token_attempts (suc retries) status observed = do
    next ← get_auth_token cbor library true
    elim (status_eq next err_none) [
      | true ↦ pure (next, observed)
      | false ↦
          token_attempts retries next
            (observed ++ (codes "GetAuthToken got error code - " ++ status_to_string next) ∷ [])
    ]

  unfoldable pub blackbox_device_crashed : ℕ → Action (Session cbor) (Bool × List Bytes)
  unfolding on_command_state token_attempts status_eq
  blackbox_device_crashed retries = do
    (status, observed) ← on_command_state (token_attempts retries err_none [])
    token ← gets (λ (s : Session cbor). s.command_state.auth_token)
    initial ← gets (λ (s : Session cbor). s.monitor.initial_pin_token)
    pure (not (status_eq status err_none) || not (bytes_eq token initial), observed)

  unfoldable pub device_crashed : ℕ → Action (Session cbor) (Bool × List Bytes)
  unfolding blackbox_device_crashed on_monitor gdb_device_crashed
  device_crashed retries s = elim s.monitor.kind [
    | blackbox ↦ blackbox_device_crashed retries s
    | gdb ↦ (on_monitor gdb_device_crashed >>= λ crashed. pure (crashed, [])) s
    | cortexm4_gdb ↦ (on_monitor gdb_device_crashed >>= λ crashed. pure (crashed, [])) s
  ]

  -- Keeps the token when it was obtained.
  unfoldable pub keep_token : Bool → Action (Session cbor) Bool
  keep_token false = pure false
  keep_token true =
      modify (λ (s : Session cbor). record s {
        monitor = record s.monitor { initial_pin_token = s.command_state.auth_token };
      })
      >> pure true

  unfoldable pub blackbox_prepare : Action (Session cbor) Bool
  unfolding on_command_state get_auth_token keep_token status_eq
  blackbox_prepare = on_command_state (get_auth_token cbor library true) >>= λ status.
      keep_token (status_eq status err_none)

  unfoldable pub gdb_prepare : Action (Session cbor) Bool
  unfolding on_command_state prompt_replug_and_init on_monitor gdb_continue
  gdb_prepare = on_command_state (prompt_replug_and_init cbor library) >> on_monitor gdb_continue

  unfoldable pub prepare_monitor : Action (Session cbor) Bool
  unfolding blackbox_prepare gdb_prepare
  prepare_monitor s = elim s.monitor.kind [
    | blackbox ↦ blackbox_prepare s
    | gdb ↦ gdb_prepare s
    | cortexm4_gdb ↦ gdb_prepare s
  ]

unfoldable pub attach : SocketCalls → Monitor → Bool
unfolding attach_gdb
attach calls m = elim m.kind [
  | blackbox ↦ true
  | gdb ↦ attach_gdb calls m
  | cortexm4_gdb ↦ attach_gdb calls m
]

unfoldable pub print_crash_report : Action Monitor (Unit {0})
unfolding print_crash gdb_print_crash_report cortex_print_crash_report
print_crash_report m = elim m.kind [
  | blackbox ↦ print_crash m
  | gdb ↦ gdb_print_crash_report m
  | cortexm4_gdb ↦ cortex_print_crash_report m
]

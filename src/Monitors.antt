-- ===== src/Monitors.antt =====
-- src/monitors: what watches the device while inputs are sent to it. The three classes are one
-- state, and virtual calls are tests of its kind. Lines printed are kept in order, and so are the
-- files saved with their paths.
pub mod Gdb
pub mod Registers
pub mod Cortex
pub mod Watch
pub mod Decoding
use ctap2_test_tool.Base.{
  Action, Bool, Bytes, List, Option, [], check, codes, deref, done, get_elem?, if◌then◌else◌,
  modify, none, pure, some, ℕ, ◌++◌, ◌==◌, ◌>>=◌, ◌>>◌, ◌||◌, ◌∷◌,
}
use ctap2_test_tool.Cbor.{Cbor}
use ctap2_test_tool.CommandState.{CommandState}
use ctap2_test_tool.Fuzzing.{InputType, input_type_to_directory_name}
use ctap2_test_tool.Rsp.Socket.{RemoteSerialProtocol}

pub data MonitorKind : Type 0 where
  blackbox gdb cortexm4_gdb : MonitorKind

pub record Monitor : Type 0 where
  pub kind : MonitorKind
  pub port : ℕ
  pub initial_pin_token : Bytes
  pub rsp_client : RemoteSerialProtocol
  pub stop_message : Bytes
  pub printed : List Bytes
  pub saved : List (Bytes × Bytes)

-- The state of a run against a device: the command state, which holds device and tracker, and the
-- monitor.
pub record Session (cbor : Cbor) : Type 0 where
  pub command_state : CommandState cbor
  pub monitor : Monitor

unfoldable pub on_command_state :
    {cbor : Cbor} {A : Type 0} → Action (CommandState cbor) A → Action (Session cbor) A
on_command_state step s = let (r, c) = step s.command_state in (r, record s { command_state = c })

unfoldable pub on_monitor : {cbor : Cbor} {A : Type 0} → Action Monitor A → Action (Session cbor) A
on_monitor step s = let (r, m) = step s.monitor in (r, record s { monitor = m })

unfoldable pub print_line : Bytes → Action Monitor (Unit {0})
print_line line = modify (λ m. record m { printed = m.printed ++ line ∷ [] })

-- A call of the client of the remote serial protocol.
unfoldable pub on_rsp_client :
    {A : Type 0} → (RemoteSerialProtocol → A × RemoteSerialProtocol) → Action Monitor A
on_rsp_client call m = let (a, r) = call m.rsp_client in (done a, record m { rsp_client = r })

-- `Monitor::PrintCrashReport`: an empty line and the message.
unfoldable pub print_crash : Action Monitor (Unit {0})
unfolding print_line
print_crash = do print_line []; print_line (codes "DEVICE CRASHED!")

-- `CreateArtifactsSubdirectory`, given the environment variable.
unfoldable pub artifacts_subdirectory : Option Bytes → Bytes → Bytes
artifacts_subdirectory none subdirectory =
    codes "corpus_tests/artifacts" ++ codes "/" ++ subdirectory
artifacts_subdirectory (some env_dir) subdirectory =
    env_dir ++ codes "/" ++ codes "corpus_tests/artifacts" ++ codes "/" ++ subdirectory

-- A path as `operator<<` prints it: in quotes, and a quote or a backslash behind a backslash.
unfoldable pub quoted : Bytes → Bytes
quoted [] = 34 ∷ []
quoted (c ∷ cs) = let rest = quoted cs in if (c == 34) || (c == 92) then 92 ∷ c ∷ rest else c ∷ rest

-- Saves the input when the file can be opened, and returns the path. The source takes the address
-- of the first byte, which an empty input does not have. The message of the failed check is kept up
-- to the path.
unfoldable pub save_crash_file :
    Option Bytes → (Bytes → Bool) → InputType → Bytes → Bytes → Action Monitor Bytes
unfolding artifacts_subdirectory input_type_to_directory_name quoted
save_crash_file env_dir can_open input_type bytes file_name = do
  save_path ← pure (
      artifacts_subdirectory env_dir (input_type_to_directory_name input_type)
      ++ codes "/"
      ++ file_name)
  check (can_open save_path) (codes "Unable to open file: ")
  deref (get_elem? bytes 0)
  modify (λ m. record m {
    saved = m.saved ++ (save_path, bytes) ∷ [];
    printed = m.printed ++ (codes "Saving file to " ++ 34 ∷ quoted save_path) ∷ [];
  })
  pure save_path

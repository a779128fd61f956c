-- ===== src/Monitors/Cortex.antt =====
-- `Cortexm4GdbMonitor`, which prints registers with every crash.
use ctap2_test_tool.Base.{
  Action, Bool, Bytes, List, Option, [], bit_and, check_some, codes, drop, hex2, if◌then◌else◌,
  length, none, not, pos, pure, replicate, some, take, ℕ, ◌%◌, ◌*◌, ◌++◌, ◌-◌, ◌/◌, ◌==◌, ◌>>=◌,
  ◌>>◌, ◌^◌, ◌∷◌,
}
use ctap2_test_tool.Monitors.{Monitor, on_rsp_client, print_line}
use ctap2_test_tool.Monitors.Gdb.{gdb_print_crash_report, gdb_retries, simple_packet}
use ctap2_test_tool.Monitors.Registers.{cfsr_flags, hfsr_flags, register_names, register_value}
use ctap2_test_tool.Rsp.Packet.{RspPacket, read_from_memory, read_general_registers}
use ctap2_test_tool.Rsp.Socket.{send_recv_packet}

abbrev pub register_hex_length : ℕ
register_hex_length = 8

abbrev pub num_total_registers : ℕ
num_total_registers = 17

-- `std::left << std::setw(40)`.
unfoldable pub in_field : Bytes → Bytes
in_field text = text ++ replicate (40 - length text) 32

-- The part of the packet that holds a register.
unfoldable pub register_text : Bytes → ℕ → Bytes
register_text register_packet n =
    take register_hex_length (drop (n * register_hex_length) register_packet)

unfoldable pub print_one_register : Bytes → Bytes → ℕ → Action Monitor (Unit {0})
unfolding print_line in_field register_text
print_one_register register_packet register_name register_number =
    print_line
      (in_field register_name ++ codes "0x" ++ register_text register_packet register_number)

unfoldable pub print_registers : Bytes → List (ℕ × Bytes) → Action Monitor (Unit {0})
unfolding print_one_register
print_registers register_packet [] = pure tt
print_registers register_packet ((n, name) ∷ rest) = do
  print_one_register register_packet name n
  print_registers register_packet rest

unfoldable pub print_general_registers : Bytes → Action Monitor (Unit {0})
unfolding print_line print_registers
print_general_registers register_packet =
    if not (length register_packet == num_total_registers * register_hex_length)
    then print_line
        (codes "Error reading general registers. Got unexpected response: " ++ register_packet)
    else print_registers register_packet register_names

-- `register_value & (1 << flag_bit)` as a Boolean.
unfoldable pub flag_is_set : ℕ → ℕ → Bool
flag_is_set value flag_bit = not (bit_and value (2 ^ flag_bit) == 0)

unfoldable pub print_one_flag : ℕ → Bytes → ℕ → Action Monitor (Unit {0})
unfolding print_line in_field flag_is_set
print_one_flag value flag_info flag_bit =
    print_line
      (in_field flag_info ++ (if flag_is_set value flag_bit then codes "true" else codes "false"))

-- `PrintCfsrRegister` and `PrintHfsrRegister`, with their tables.
unfoldable pub print_flags : ℕ → List (ℕ × Bytes) → Action Monitor (Unit {0})
unfolding print_one_flag
print_flags value [] = pure tt
print_flags value ((flag_bit, flag_info) ∷ rest) = do
  print_one_flag value flag_info flag_bit
  print_flags value rest

-- The digits of `absl::Hex(n, absl::kZeroPad8)`.
unfoldable pub hex8 : ℕ → Bytes
unfolding hex2
hex8 n =
    hex2 (n / 2 ^ 24 % 256) ++ hex2 (n / 2 ^ 16 % 256) ++ hex2 (n / 256 % 256) ++ hex2 (n % 256)

unfoldable pub print_address : Bytes → ℕ → Action Monitor (Unit {0})
unfolding print_line in_field hex8
print_address name value = print_line (in_field name ++ codes "0x" ++ hex8 value)

abbrev pub memory_packet : Bytes → RspPacket
memory_packet location = record { data_ = read_from_memory; address = location; param = pos 4 }

-- The response is printed, or the error line; a text that is no number ends the program.
unfoldable pub print_value :
    Option Bytes → (ℕ → Action Monitor (Unit {0})) → Bytes → Action Monitor (Unit {0})
unfolding print_line register_value
print_value none print message = print_line message
print_value (some response) print message =
    check_some (register_value response) (codes "uncaught exception of std::stoul") >>= print

unfoldable pub print_memory :
    Bytes → (ℕ → Action Monitor (Unit {0})) → Bytes → Action Monitor (Unit {0})
unfolding on_rsp_client send_recv_packet print_value
print_memory location print message =
    on_rsp_client (send_recv_packet (memory_packet location) gdb_retries) >>= λ response.
    print_value response print message

unfoldable pub print_register_packet : Option Bytes → Action Monitor (Unit {0})
unfolding print_line print_general_registers
print_register_packet none = print_line (codes "Error reading general registers.")
print_register_packet (some response) = print_general_registers response

unfoldable pub cortex_print_crash_report : Action Monitor (Unit {0})
unfolding gdb_print_crash_report print_line on_rsp_client send_recv_packet print_register_packet
    print_memory print_flags print_address
cortex_print_crash_report = do
  gdb_print_crash_report
  print_line (codes "----| General registers |----")
  response ← on_rsp_client (send_recv_packet (simple_packet read_general_registers) gdb_retries)
  print_register_packet response
  print_line (codes "----| Kernel Fault Status |----")
  print_memory (codes "e000ed28") (λ v. print_flags v cfsr_flags)
      (codes "Error reading Configurable Fault Status Register.")
  print_memory (codes "e000ed2c") (λ v. print_flags v hfsr_flags)
      (codes "Error reading Hard Fault Status Register.")
  print_memory (codes "e000ed34") (print_address (codes "Memory Fault Address:"))
      (codes "Error reading Memory Fault Address.")
  print_memory (codes "e000ed38") (print_address (codes "Bus Fault Address:"))
      (codes "Error reading Bus Fault Address.")

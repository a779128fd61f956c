-- ===== src/Monitors/Gdb.antt =====
-- `GdbMonitor`.
use ctap2_test_tool.Base.{
  Action, Bool, Bytes, Option, [], check, codes, drop, false, if◌then◌else◌, leb, length, ltb,
  modify, none, pos, pure, some, take, true, ℕ, ◌&&◌, ◌++◌, ◌==◌, ◌>>=◌, ◌>>◌, ◌∷◌,
}
use ctap2_test_tool.Monitors.{Monitor, on_rsp_client, print_crash, print_line}
use ctap2_test_tool.Rsp.Connection.{SocketCalls, connect_socket, initialize_socket}
use ctap2_test_tool.Rsp.Packet.{PacketData, RspPacket, continue}
use ctap2_test_tool.Rsp.Socket.{receive_packet, send_packet}

abbrev pub gdb_retries : ℕ
gdb_retries = 10

-- What is printed behind the signal of a reply on the end of the process.
unfoldable pub process_details : Bytes → Bytes
process_details response = if ltb 3 (length response) then codes ", " ++ drop 4 response else []

unfoldable pub print_stop_reply_kind : ℕ → Bytes → Action Monitor (Unit {0})
unfolding print_line process_details
print_stop_reply_kind kind response =
    if kind == 78
    then print_line (codes "There are no resumed threads left in the target.")
    else if kind == 83
    then (check (length response == 3) (codes "Wrong packet length")
        >> print_line (codes "The program received signal: " ++ take 2 (drop 1 response)))
    else if kind == 84
    then (check (leb 3 (length response)) (codes "Wrong packet length")
        >> print_line (
            codes "The program received signal: "
            ++ take 2 (drop 1 response)
            ++ codes ", "
            ++ drop 3 response))
    else if kind == 87
    then (check (leb 3 (length response)) (codes "Wrong packet length")
        >> print_line (
            codes "The process exited with exit status: "
            ++ take 2 (drop 1 response)
            ++ process_details response))
    else if kind == 88
    then (check (leb 3 (length response)) (codes "Wrong packet length")
        >> print_line (
            codes "The process terminated with signal: "
            ++ take 2 (drop 1 response)
            ++ process_details response))
    else pure tt

unfoldable pub print_stop_reply : Bytes → Action Monitor (Unit {0})
unfolding print_stop_reply_kind
print_stop_reply [] = pure tt
print_stop_reply (kind ∷ rest) = print_stop_reply_kind kind (kind ∷ rest)

unfoldable pub attach_gdb : SocketCalls → Monitor → Bool
unfolding initialize_socket connect_socket
attach_gdb calls m =
    let (ok, socket_fd) = initialize_socket calls in ok && connect_socket calls socket_fd m.port

abbrev pub simple_packet : PacketData → RspPacket
simple_packet kind = record { data_ = kind; address = []; param = pos 0 }

unfoldable pub gdb_continue : Action Monitor Bool
unfolding on_rsp_client send_packet
gdb_continue = on_rsp_client (send_packet (simple_packet continue) gdb_retries)

-- Keeps the packet received as the stop message.
unfoldable pub keep_stop_message : Option Bytes → Action Monitor Bool
keep_stop_message none = pure false
keep_stop_message (some response) = modify (λ m. record m { stop_message = response }) >> pure true

unfoldable pub gdb_device_crashed : Action Monitor Bool
unfolding on_rsp_client receive_packet keep_stop_message
gdb_device_crashed = on_rsp_client receive_packet >>= keep_stop_message

unfoldable pub gdb_print_crash_report : Action Monitor (Unit {0})
unfolding print_crash print_stop_reply
gdb_print_crash_report = print_crash >> λ m. print_stop_reply m.stop_message m

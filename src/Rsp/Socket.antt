-- ===== src/Rsp/Socket.antt =====
-- `RemoteSerialProtocol`. The socket is the operating system's: the results of its calls are
-- given in advance, in the order of the calls.
use ctap2_test_tool.Base.{
  Bool, Bytes, List, Option, [], bytes_eq, codes, drop, false, if◌then◌else◌, int_eq, length,
  negsuc, none, pos, some, suc, take, true, zero, ℕ, ℤ, ◌++◌, ◌==◌, ◌∷◌,
}
use ctap2_test_tool.Rsp.Packet.{RspPacket, get_packetdata, to_string}

-- What a call of `select` and `recv` meets: nothing within the time limit or an error, or bytes.
pub data Arrival : Type 0 where
  nothing : Arrival
  available : Bytes → Arrival

pub record RemoteSerialProtocol : Type 0 where
  -- What is found where a destroyed text lay, at the round with this number of sent texts.
  pub residue : ℕ → Bytes → Bytes
  -- The bytes given to `send`, and its further results, where -1 is an error.
  pub sent : List Bytes
  pub send_results : List ℤ
  pub arrivals : List Arrival

abbrev pub receive_buffer_length : ℕ
receive_buffer_length = 4000

-- `recv` takes at most so many bytes, and what is left stays available.
abbrev pub leave : Bytes → List Arrival → List Arrival
leave [] rest = rest
leave (b ∷ bs) rest = available (b ∷ bs) ∷ rest

unfoldable pub receive_arrival : ℕ → List Arrival → Option Bytes × List Arrival
receive_arrival receive_length [] = (none, [])
receive_arrival receive_length (nothing ∷ rest) = (none, rest)
receive_arrival receive_length (available bytes ∷ rest) =
    (some (take receive_length bytes), leave (drop receive_length bytes) rest)

unfoldable pub receive : ℕ → RemoteSerialProtocol → Option Bytes × RemoteSerialProtocol
unfolding receive_arrival
receive receive_length r =
    let (bytes, rest) = receive_arrival receive_length r.arrivals in
    (bytes, record r { arrivals = rest })

unfoldable pub is_plus : Option Bytes → Bool
is_plus none = false
is_plus (some bytes) = bytes_eq bytes (codes "+")

unfoldable pub read_acknowledgement : RemoteSerialProtocol → Bool × RemoteSerialProtocol
unfolding receive is_plus
read_acknowledgement r = let (response, r') = receive 1 r in (is_plus response, r')

-- `strlen`: the bytes before the first zero.
unfoldable pub c_string : Bytes → Bytes
c_string [] = []
c_string (b ∷ bs) = if b == 0 then [] else b ∷ c_string bs

unfoldable pub next_result : List ℤ → ℤ × List ℤ
next_result [] = (negsuc 0, [])
next_result (n ∷ ns) = (n, ns)

unfoldable pub send : Bytes → RemoteSerialProtocol → ℤ × RemoteSerialProtocol
unfolding next_result
send bytes r =
    let (n, rest) = next_result r.send_results in
    (n, record r { sent = r.sent ++ bytes ∷ []; send_results = rest })

-- One round: the acknowledgement is read only after all bytes were taken.
unfoldable pub send_once : Bytes → RemoteSerialProtocol → Bool × RemoteSerialProtocol
unfolding send read_acknowledgement
send_once buf r =
    let (aux, r') = send buf r in
    if int_eq aux (pos (length buf)) then read_acknowledgement r' else (false, r')

-- The pointer is read anew in every round, twice for its length; both reads find the same.
unfoldable pub send_rounds : Bytes → ℕ → RemoteSerialProtocol → Bool × RemoteSerialProtocol
unfolding send_once c_string
send_rounds text zero r = (false, r)
send_rounds text (suc retries) r =
    let (ok, r') = send_once (c_string (r.residue (length r.sent) text)) r in
    let again = send_rounds text retries r' in if ok then (true, r') else again

-- The source keeps a pointer into the text of the packet after the text was destroyed. C++ gives
-- reading it no meaning; what is read there is given by `residue`, and may be any bytes.
unfoldable pub send_packet : RspPacket → ℕ → RemoteSerialProtocol → Bool × RemoteSerialProtocol
unfolding send_rounds to_string
send_packet packet retries r = send_rounds (to_string packet) retries r

unfoldable pub packetdata : Option Bytes → Option Bytes
unfolding get_packetdata
packetdata none = none
packetdata (some response) = some (get_packetdata response)

unfoldable pub receive_packet : RemoteSerialProtocol → Option Bytes × RemoteSerialProtocol
unfolding receive packetdata
receive_packet r = let (response, r') = receive receive_buffer_length r in (packetdata response, r')

unfoldable pub send_recv_packet :
    RspPacket → ℕ → RemoteSerialProtocol → Option Bytes × RemoteSerialProtocol
unfolding send_packet receive_packet
send_recv_packet packet retries r =
    let (ok, r') = send_packet packet retries r in if ok then receive_packet r' else (none, r')

-- ===== src/Rsp/Packet.antt =====
-- `RspPacket`, its text and its checksum, and `GetPacketdata`.
use ctap2_test_tool.Base.{
  Bytes, [], codes, decimal, drop, hex2, if◌then◌else◌, length, ltb, negsuc, pos, suc, take, ℕ, ℤ,
  ◌%◌, ◌++◌, ◌+◌, ◌-◌, ◌∷◌,
}

pub data PacketData : Type 0 where
  continue read_from_memory read_general_registers request_supported : PacketData

-- The address and the parameter of a packet without them are an empty string and 0.
pub record RspPacket : Type 0 where
  pub data_ : PacketData
  pub address : Bytes
  pub param : ℤ

-- The sum wraps as uint8_t does.
unfoldable pub checksum_from : ℕ → Bytes → ℕ
checksum_from sum [] = sum
checksum_from sum (c ∷ cs) = checksum_from ((sum + c) % 256) cs

unfoldable pub checksum : Bytes → ℕ
unfolding checksum_from
checksum packet = checksum_from 0 packet

-- `absl::StrCat` of an `int`.
unfoldable pub decimal_int : ℤ → Bytes
unfolding decimal
decimal_int (pos n) = decimal n
decimal_int (negsuc n) = 45 ∷ decimal (suc n)

unfoldable pub packet_data : PacketData → Bytes → ℤ → Bytes
unfolding decimal_int
packet_data continue address param = codes "c"
packet_data read_from_memory address param = codes "m" ++ address ++ codes "," ++ decimal_int param
packet_data read_general_registers address param = codes "g"
packet_data request_supported address param = codes "qSupported"

unfoldable pub data_to_string : RspPacket → Bytes
unfolding packet_data
data_to_string packet = packet_data packet.data_ packet.address packet.param

unfoldable pub to_string : RspPacket → Bytes
unfolding data_to_string checksum hex2
to_string packet =
    codes "$" ++ data_to_string packet ++ codes "#" ++ hex2 (checksum (data_to_string packet))

-- The data of a packet, without `$`, `#` and the checksum.
unfoldable pub get_packetdata : Bytes → Bytes
get_packetdata packet =
    if ltb (length packet) 4 then [] else take (length packet - 4) (drop 1 packet)

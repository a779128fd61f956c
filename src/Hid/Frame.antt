-- ===== src/Hid/Frame.antt =====
-- `struct Frame` and the constants of src/hid/hid_device.cc. The union is its 60 bytes after the
-- channel id: byte 0 is `type`, `init.cmd` and `cont.seq`; `init.data` starts at byte 3 and
-- `cont.data` at byte 1.
use ctap2_test_tool.Base.{
  Bool, Bytes, arith, big_endian, bit_and, drop, get_or, length, length-append, length-replicate,
  load-big_endian, load_big_endian, not, refl, replicate, take, take-append, ℕ, ◌%◌, ◌*◌, ◌++◌, ◌+◌,
  ◌-◌, ◌/◌, ◌<◌, ◌==◌, ◌^◌, ◌∷◌, ◌≡◌, ◌≤◌,
}

abbrev pub init_nonce_size : ℕ
init_nonce_size = 8

abbrev pub init_resp_size : ℕ
init_resp_size = 17

abbrev pub max_data_size : ℕ
max_data_size = 7609

abbrev pub id_broadcast : ℕ
id_broadcast = 0xFFFFFFFF

-- Milliseconds.
abbrev pub receive_timeout : ℕ
receive_timeout = 5000

abbrev pub ctap_hid_init : ℕ
ctap_hid_init = 0x86

abbrev pub ctap_hid_wink : ℕ
ctap_hid_wink = 0x88

abbrev pub ctap_hid_error : ℕ
ctap_hid_error = 0xbf

abbrev pub ctap_hid_cbor : ℕ
ctap_hid_cbor = 0x90

abbrev pub ctap_hid_keepalive : ℕ
ctap_hid_keepalive = 0xbb

-- `sizeof(frame.init.data)`, `sizeof(frame.cont.data)`, `sizeof(Frame)`.
abbrev pub init_size : ℕ
init_size = 57

abbrev pub cont_size : ℕ
cont_size = 59

abbrev pub frame_size : ℕ
frame_size = 64

pub record Frame : Type 0 where
  pub cid : ℕ
  pub body : Bytes

abbrev pub frame_type : Frame → ℕ
frame_type f = get_or f.body 0 0

abbrev pub init_data : Frame → Bytes
init_data f = drop 3 f.body

abbrev pub cont_data : Frame → Bytes
cont_data f = drop 1 f.body

unfoldable pub is_init_type : Frame → Bool
is_init_type f = not (bit_and (frame_type f) 0x80 == 0)

-- `cont.seq & ~kSeqMask`: the byte without its top bit.
unfoldable pub masked_seq : Frame → ℕ
masked_seq f = bit_and (frame_type f) 0x7f

unfoldable pub payload_length : Frame → ℕ
payload_length f = get_or f.body 1 0 * 256 + get_or f.body 2 0

-- `memset(…, 0xEE, size)` and `copy_n` over it.
unfoldable pub padded : ℕ → Bytes → Bytes
padded size bytes = bytes ++ replicate (size - length bytes) 0xEE

-- A frame with the fields of `init` written: command, payload length, payload.
unfoldable pub init_frame : ℕ → ℕ → ℕ → Bytes → Frame
unfolding padded
init_frame channel cmd size bytes = record {
  cid = channel;
  body = cmd ∷ size / 256 % 256 ∷ size % 256 ∷ padded init_size bytes;
}

-- A frame with the fields of `cont` written: sequence number, payload.
unfoldable pub cont_frame : ℕ → ℕ → Bytes → Frame
unfolding padded
cont_frame channel seq bytes = record { cid = channel; body = seq ∷ padded cont_size bytes }

-- The 64 bytes on the wire, the channel id in network order, and the frame that they hold.
unfoldable pub to_wire : Frame → Bytes
unfolding big_endian
to_wire f = big_endian f.cid ++ f.body

unfoldable pub from_wire : Bytes → Frame
unfolding load_big_endian
from_wire b = record { cid = load_big_endian b; body = drop 4 b }

pub length-padded :
    (size : ℕ) (bytes : Bytes) → length bytes ≤ size → length (padded size bytes) ≡ size
unfolding padded
length-padded size bytes h = omega (
  arith,
  length-append bytes (replicate (size - length bytes) 0xEE),
  length-replicate {A = ℕ} (size - length bytes) 0xEE,
)

pub take-padded : (size : ℕ) (bytes : Bytes) → take (length bytes) (padded size bytes) ≡ bytes
unfolding padded
take-padded size bytes = take-append (length bytes) bytes _ refl

-- A frame survives the wire when its channel id is a 32-bit word.
pub from_wire-to_wire : (f : Frame) → f.cid < 2 ^ 32 → from_wire (to_wire f) ≡ f
unfolding from_wire to_wire
from_wire-to_wire f h =
    let e : load_big_endian (big_endian f.cid) ≡ f.cid = load-big_endian f.cid h in
    λ i. record { cid = e i; body = f.body }

pub length-to_wire : (f : Frame) → length (to_wire f) ≡ 4 + length f.body
unfolding to_wire
length-to_wire f = omega arith

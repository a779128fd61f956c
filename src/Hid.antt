-- ===== src/Hid.antt =====
-- src/hid/hid_device.h and src/hid/hid_device.cc: the CTAPHID protocol over a USB HID device.
pub mod Frame
pub mod Device
pub mod Send
pub mod Receive
pub mod Status
pub mod Exchange
pub mod Init
pub mod Packets
pub mod RoundTrip
pub mod Message
pub mod Rounds
pub mod Fewer
pub mod Waiting
pub mod Adopts
pub mod Kept
pub mod Deadline
pub mod KeepsTests
pub mod Dialogue
pub mod Wink
pub mod Prompts
pub mod Bounds

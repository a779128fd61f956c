-- ===== src/Lib.antt =====
-- CTAP2 test tool: a program that tests FIDO2 security keys over USB.
--
-- The tool sends CTAP2 commands to a device, checks every response against the standard, and
-- writes a report. Its parts, from the wire upwards:
--   Hid            src/hid/hid_device.{h,cc}: the CTAPHID protocol. A message is cut into frames
--                  of 64 bytes, sent, and put together again from the frames of one channel;
--                  `exchange_cbor` is ExchangeCbor with its keepalive loop, `init` is Init.
--   Commands       src/fido2_commands.{h,cc}: one positive and one negative test per command,
--                  with all checks of the response (`make_credential_positive_test` is
--                  MakeCredentialPositiveTest, and so on).
--   CborBuilders   src/cbor_builders.{h,cc}: the requests and their defaults.
--   CommandState   src/command_state.{h,cc}: key agreement, PIN, token and reset, over the
--                  commands and the request builders.
--   Crypto         src/crypto_utility.{h,cc}: the checks around BoringSSL.
--   Tracker        src/device_tracker.{h,cc}: observations, test results, capabilities, report.
--   ParameterCheck src/parameter_check.{h,cc}: public keys must not repeat, and signature
--                  counters are classified.
--   Constants      src/constants.{h,cc}: status bytes, commands, map keys.
--   Rsp            src/rsp/rsp_packet.{h,cc}, src/rsp/rsp.{h,cc}: packets to a GDB server.
--   Fuzzing        src/fuzzing: the files of a corpus in order of their size, and how they are sent.
--   Monitors       src/monitors: how a crash of the device is noticed, and the registers that a
--                  GDB server then reports. A `Session` is the command state with its monitor.
--   Tests          src/tests: the tests as records, `run_tests` is RunTests; `get_tests` lists the
--                  76 conformance tests, each with a body named for what it tests, and
--                  `execute_corpus` is the body of the corpus tests.
--   Programs       src/fido2_conformance_main.cc, src/corpus_test_main.cc.
-- The device holds a pointer to the tracker that the commands also use; in the model the tracker
-- is a field of the device, so both see the same one. The tracker holds both checkers.
--
-- State is passed explicitly. A failed glog CHECK ends the program: a procedure of type `Action`
-- returns `done`, `check_failed` with the message, or `undefined` where C++ gives the code no
-- meaning, such as reading through an end iterator. Numbers are natural numbers, and arithmetic
-- of fixed width is written with its remainder (counters modulo 2^32, checksums modulo 256).
--
-- The code of other projects is a parameter. `Cbor` is the interface of the CBOR library with the
-- laws that the callers rely on in `CborLaws`; `Library` is BoringSSL; hidapi and the socket are
-- the sequences of results of their calls, given in advance with the time that each read takes.
-- When the sequence of reads is empty the device stays silent.
--
-- SendPacket reads a text that was already destroyed, which C++ gives no meaning; `residue` is what
-- it finds there, and may be any bytes.
--
-- The files, the environment variable and the results of the calls that open a socket are given.
--
-- Loops over frames run on a number of rounds that is one more than the reads that are left.
-- Every round but the last takes a read, so the rounds do not run out before the reads do. The
-- same holds of the loops over keepalive messages and over answers to a challenge. The loop over a
-- corpus has as many rounds as there are files. A message has at most `max_data_size` = 7609 bytes,
-- which is one initial frame and 128 further ones.
--
-- The body of a test is an action that may end with an error message (`Test`); `ensure` stands for
-- `if (!condition) return message;`. A builder that a helper changes is passed in and returned.
--
-- Not modelled: console output but that of the monitors, log output and the report's file; the
-- command line; the numbers that a failed CHECK prints; waiting; the elliptic curve calls of
-- src/crypto_utility.cc, which `Library` stands for.
pub mod Base
pub mod Constants
pub mod ParameterCheck
pub mod Cbor
pub mod Tracker
pub mod Hid
pub mod Crypto
pub mod CborBuilders
pub mod Commands
pub mod Rsp
pub mod Examples
pub mod CommandState
pub mod Fuzzing
pub mod Monitors
pub mod Tests
pub mod Programs

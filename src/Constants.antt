-- ===== src/Constants.antt =====
-- src/constants.h and src/constants.cc: the status bytes and commands of CTAP.
pub mod Keys
pub mod Codes
pub mod Numbers

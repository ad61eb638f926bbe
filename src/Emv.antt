-- ===== src/Emv.antt =====
-- packages/emv/src: the chip of a card. Bytes are numbers below 256, and a text is the list of its
-- character codes.
pub mod Hex
pub mod Answers
pub mod Apdu
pub mod Chip
pub mod Record
pub mod Transmit
pub mod Tlv
mod Tests

-- ===== src/Lib.antt =====
-- The simulator of an ATM and its CEN/XFS devices: a library about the application, the devices and
-- their manager, the chip, the ISO 8583 messages, the macros, the PIN hashing, the switch routing
-- and the host emulator.
--
-- The parts and how they interact. The application (apps/xfs-server/src/atm) sends commands by an
-- XFS manager to the virtual devices (packages/xfs-devices/src), each of which extends one base
-- class, and asks the host emulator (apps/xfs-server/src/host) to authenticate cards, check PINs,
-- authorise withdrawals and reverse them. The host uses the switch profiles
-- (packages/iso8583/src/switches.ts) and the PIN hashing (packages/shared/src/crypto.ts).
--
-- The files. Each device has a state record with the fields of its class, one function per method,
-- `execute_command` for `executeCommand` with its RESET, injected error and `switch`, and a log
-- `emitted` of the events it has sent. A child module has the theorems of one concern.
-- Common: names of the libraries, lists, tests, integers and results that the others share.
-- Xfs and Xfs/Device: packages/xfs-core/src/types.ts and
-- packages/xfs-devices/src/base/virtual-device.base.ts.
-- Cdm: packages/xfs-devices/src/cdm/cdm.service.ts. Cdm/Units has the cassettes and Cdm/Notes the
-- mixes (`calculateMinNotesMix`, `validateCustomMix`); Cdm/Conservation, Cdm/Dispense, Cdm/Funded,
-- Cdm/Status, Cdm/Timer and Cdm/Limits are about dispensing, the status of a cassette, the timer,
-- and where the mix falls short.
-- Idc: packages/xfs-devices/src/idc/idc.service.ts. Idc/Held is about the card that is held.
-- Pinpad: packages/xfs-devices/src/pin/pin.service.ts. Pinpad/Block is `buildIso0PinBlock`,
-- Pinpad/Decode its inverse; Pinpad/Entry and Pinpad/Keys are about the entries and their keys.
-- Ptr: packages/xfs-devices/src/ptr/ptr.service.ts. Ptr/Paper is about the paper and the history.
-- Siu: packages/xfs-devices/src/siu/siu.service.ts. Siu/Switch is about the events and the
-- operator's mode.
-- Xfs/Manager: apps/xfs-server/src/xfs/xfs-manager.service.ts, over any devices, with a sequence of
-- its calls as a list; Xfs/Manager/Refines has the specification, a function from names to devices.
-- Iso and Iso/Switches: packages/iso8583/src/index.ts and switches.ts. Iso/Fields: fields.ts and
-- bitmap.ts; Iso/Codec: codec.ts; Iso/Bitmap, Iso/Parts and Iso/RoundTrip are about reading a
-- message back.
-- Emv: packages/emv/src. Emv/Hex and Emv/Apdu are apdu.ts, Emv/Tlv is tlv.ts, Emv/Chip and
-- Emv/Transmit are emv-simulator.ts. Emv/Tlv/Tree says which bytes stand for which nodes,
-- Emv/Tlv/RoundTrip, Emv/Tlv/Bounded and Emv/Tlv/Endless are about the decoder, and Emv/Answers and
-- Emv/Record about the record of a card.
-- Macros: apps/xfs-server/src/macros. Macros/Recorder is macro-recorder.service.ts, with Keeps,
-- Orders and Pin about what is recorded; Macros/Runner with Steps and Run is
-- macro-runner.service.ts, with Checkpoints, Schedule, Results and Replay about its runs. The
-- runner calls an `Environment`, the application and the devices, and a `Database`.
-- Suites: apps/xfs-server/src/suites/suite-runner.service.ts, over the same runner.
-- Transport: apps/xfs-server/src/host-transport. Transport/Framing is the socket loop of
-- iso8583-tcp.transport.ts and Transport/Chunks is about its messages; Transport/Manager is
-- host-transport-manager.service.ts, with Manager/Edit for `create` and `update`, and Peers and
-- Active about `setActive`.
-- Shared and Shared/Pin: packages/shared/src/ids.ts and crypto.ts.
-- Host: apps/xfs-server/src/host/host-emulator.service.ts. Host/Tables has the rows of
-- prisma/schema.prisma and the queries, Host/Card the expiry; Host/Accounts, Host/Ledger, Host/Day,
-- Host/Reverse, Host/Undo and Host/Pins are about the money, a withdrawal with its reversal, and
-- cards with their PINs.
-- Atm: apps/xfs-server/src/atm/atm-app.service.ts and atm-session.types.ts: the session and how it
-- ends. Atm/Flow has the handlers of a card, a PIN, a choice and an amount, Atm/Withdrawal the
-- withdrawal; Atm/Cancel, Atm/Entry and Atm/Reversal are about a cancel, a PIN entry that is
-- cancelled, and a dispense that fails. The manager's `execute`
-- (apps/xfs-server/src/xfs/xfs-manager.service.ts), which answers a device's exception by an error
-- code, is read off the device's answer.
--
-- The models. Counts and levels are natural numbers, and a balance and an amount that the host is
-- asked for are integers; fractions and NaN are left out, and so is a custom mix in which two keys
-- are texts of one number, whose deduction would take a count below 0. A map of the code is a list
-- that is searched from its front. A method is a function from the state to its answer and the next
-- state; an exception is an `err` of the answer. A timer is a field of the state and its callback
-- is a call of its own, so an order of calls is a list and a theorem about `run` is about every
-- order. The host's database is a record of lists; a call whose `db_up` is false finds the database
-- down. Every loop is a structural recursion over a list, but for `decodeTlv`, whose rounds and
-- levels use fuel: one unit more than there are bytes is enough for the inputs of Emv/Tlv/Bounded.
-- The socket loop uses as much fuel as there are bytes, and a round takes two. Bytes are numbers
-- below 256, a length that `decodeTlv` reads is an integer of 32 bits with a sign, and the hash of
-- the chip is taken modulo 2^64. A text is a String, or a list of character codes where its
-- characters matter. A call that may throw and awaits is an `Op`, a function from the world to a
-- result and the next world.
--
-- Parameters: for the runner of macros the application, the devices, the database and the
-- language's conversions of values to texts and numbers; for the manager the devices; and
-- everywhere SHA-256 and the hexadecimal codec of node, 3DES, the clock, random numbers, and
-- JSON.stringify.
--
-- Not modelled: logs, the delay of a command, texts for people, capabilities, HTTP and WebSocket,
-- the front end, and the generated constants. The answers of the transports, reports, the scheduler
-- of suites and the controllers are not modelled.
pub mod Common
pub mod Xfs
pub mod Cdm
pub mod Iso
pub mod Shared
pub mod Suites
pub mod Transport
pub mod Host
pub mod Idc
pub mod Pinpad
pub mod Siu
pub mod Ptr
pub mod Atm
pub mod Emv
pub mod Macros

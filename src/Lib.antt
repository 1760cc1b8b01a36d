-- ===== src/Lib.antt =====
-- TrueFIX: a FIX engine in Rust. This library models its core and proves what makes it correct.
--
-- The parts, and the files that model them:
--   * crates/truefix-core, the message model and the SOH wire codec: Core. A message is three
--     ordered collections of fields and repeating groups (Core/FieldMap, Core/Message). The encoder
--     (Core/Encode) writes them with a computed BodyLength and CheckSum; the framer (Core/Framing)
--     cuts a stream into messages; the decoder (Core/Decode) tokenizes, validates and sorts the
--     fields into the sections, and Core/Groups does so with repeating groups.
--   * crates/truefix-session, the session state machine: Session. Its record, the sequence numbers,
--     sending, resets and logout are in Session/State, the builders of administrative messages in
--     Session/Admin, and the answer to a ResendRequest in Session/Resend. A session keeps the
--     messages that it sent and sends them again from there. Messages that come too early wait in a
--     queue, which Session/Inbound drains; Session/SequenceReset takes a SequenceReset. The tests on
--     a message are in Session/Checks, `on_connected` and `on_logon` in Session/Logon, `on_received`
--     in Session/Received, `on_tick` in Session/Tick, and `handle` with its events in Session/Engine.
--     Session/Invariant follows a session through each handler, and Session/Lifecycle compares
--     `handle` with the protocol's state machine.
--   * crates/truefix-dict, the data dictionary: Dict. Its record and the validation types are in
--     Dict/Model, the tests on values in Dict/Values (over the typed views of Core/Times), the version
--     parser in Dict/Version, the search for header tags in Dict/Header, and the FIXT dictionaries in
--     Dict/Fixt. `validate` is in Dict/Validate, the groups that the decoder has put together in
--     Dict/Structured, and those that stand flat among the fields in Dict/Flat. `group_of` is what the
--     decoder of Core/Groups asks of a dictionary.
--   * crates/truefix-store, the store in memory and the contract that a store keeps: Store.
--   * crates/truefix-binary, the FAST primitives: Binary.
--   * what the codec takes from Rust's strings (UTF-8 validity, parsing and printing of numbers):
--     Text. Lists, results and tests that all parts share: Base.
--
-- How the model corresponds to the code. A function keeps its name. A byte is a number, a byte
-- string a list of them; u32, usize, u64 and i64 are numbers with their bounds written out, on a
-- 64-bit target. A function that appends to a buffer returns what it appends. A loop over a position
-- in a buffer goes over the bytes or the tokens that are left and keeps the offset beside them.
-- An error is a value of the source's error type in `Result`, whose third outcome `stuck` is no Rust
-- value: a loop on fuel ran out of it. The tokenizer has the input's length as fuel and the loops of
-- the group decoder the number of tokens; that this is always enough is proved. The nesting of
-- groups is limited by the source's own 32 levels. The dictionary that names the groups is a
-- parameter, as it is in the source (the trait `GroupSpec`).
--
-- A method of the session takes the session and returns what it did and the session after it. What
-- it takes from elsewhere during one event is the record `Env`: the clock, as a text and as a number,
-- the parser of timestamps, what the configured dictionaries answer for a message, whether the
-- schedule is closed, and the two `f64` comparisons of the heartbeat timer. The loop over the numbers
-- of a ResendRequest has two more rounds of fuel than there are numbers to answer, and draining the
-- queue one more round than the queue has messages; that these are enough is part of the theorems.
--
-- What the validation takes from other crates is the record `Crates`: which texts are decimals, and
-- which months, dates and times of day the calendar has. The search for header tags has the number of
-- the groups and one more as fuel, and the walk over a flat group two units for each field; that this
-- is enough, the former for a dictionary whose groups do not contain themselves, is proved. Of a
-- group's child dictionary only its field definitions are kept, and of a validation error not its text.
--
-- Not modelled: the socket transport, the logs, the database stores and the vendors' clients, which
-- are I/O; the dictionary parsers, the merging of dictionaries and the code generator; the formatters
-- of dates and times, which stand on a crate that is not in the repository.
pub mod Base
pub mod Text
pub mod Core
pub mod Binary
pub mod Store
pub mod Dict
pub mod Session

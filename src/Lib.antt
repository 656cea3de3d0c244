-- ===== src/Lib.antt =====
-- medius: the host library that drives one box over a serial link.
--
-- A frame is SOF, TYPE, SEQ, a 16-bit length, the payload and a CRC. The reader thread feeds what it
-- reads to a decoder and routes each frame: a hello to the restart watch, a reply to the request that
-- waits on its SEQ, an event to its subscribers. What the caller asks of the box (presses, locks,
-- rewrite rules, field transforms, a clip, catches) is kept as the desired state, and a reconnect or a
-- recovery sends it again. A device call checks its arguments; a lock, rewrite or transform call then
-- writes the desired state, sends its command and takes the write back when the send fails, and a clip
-- call records its change once its frame is sent. Each file names the source file that it models.
--
-- Files and sources (paths from the repository's root):
--   Base            lists, maps, keys, words and integers that the models share
--   Protocol/Crc    src/protocol/crc.rs: crc16_ccitt, bit by bit
--   Protocol/Opcode src/protocol/opcode.rs: FrameType and its byte, the wire constants
--   Protocol/Frame  src/protocol/frame.rs: encode and FrameDecoder; the callback of feed is the list of the
--                   frames, and the reader loop of src/link/reader.rs is the sequence of its reads
--   Protocol/Command  src/protocol/command.rs: the payload builders
--   Types           src/types: direction.rs, usage.rs, catch.rs, clip.rs with the setup packet of
--                   transfer.rs, clock.rs, event.rs with the rest of transfer.rs, rewrite.rs,
--                   transform.rs and lock.rs; the readers of replies stand with the types that they
--                   return
--   Link/Reconcile  src/link/reconcile.rs: DesiredState with every operation. Slots is a row of the lock
--                   table, Locks the rows, Rewrites and Transforms the two ordered tables, Clip the held
--                   clip, Session the overrides, the reset and the idle test
--   Link/Correlation  src/link/correlation.rs: register, cancel and deliver
--   Link/Slot       src/link/slot.rs: TransportSlot over any type of transports
--   Link/Catch      src/link/catch.rs: the union of the subscriptions and the frames of a change
--   Link/Subscribe  src/link/catch.rs: the calls that change the subscriptions, with the limit and the
--                   undo, and the delivery of an event to its subscribers
--   Link/Reconnect  src/link/reconnect.rs: the frames of reapply_locked, in order
--   Link/Restart    src/link/restart.rs: the watch on hellos and the poll of a recovery
--   Device          src/device: rewrite.rs, transform.rs, lock.rs and clip.rs, the calls with their
--                   checks and what they undo or record, the encoding of a clip in Device/Clip, and
--                   require_imperfect and validate_raw_direction of raw.rs
--
-- How state is modelled: a value behind a Mutex or an atomic is a record, and a method on it is a
-- function to the new record, with what the method returns beside it; each such method holds its lock
-- throughout. A BTreeMap or HashMap is an association list in key order, with the order that Ord derives
-- for the key (Base/Map, Base/Keys). A Vec is a list; an index out of bounds changes nothing, and the
-- source's indices come from position, which is in bounds. An i16 scale is an integer of Base/Int.
-- sort_by_key is the stable insertion sort. The outcome of a send is an argument: whether it succeeds,
-- or, for a change of several frames, how many of them succeed. An Instant is a number of nanoseconds in
-- the timeline and of milliseconds in the restart watch. The box appears as its catch table: a frame
-- adds or removes one address, and the removal of a wildcard entry, whatever its direction, clears the
-- table, as the comment of catch_sync says.
--
-- Bounds: a u8 and a u16 are natural numbers, and a wrap is written out where the source can wrap (the
-- length and the error count of a frame, the SEQ counter, the generations, the hello count, the stamps
-- of the timeline). The loop of register makes 256 turns in the source and in the model, and one more
-- turn where it ends on the hello's SEQ; 256 turns pass every SEQ. The decoder needs no fuel: it takes
-- one step for a byte. A reader of a reply walks its rows by the count that the reply gives; an
-- index out of bounds, where the source panics, is none.
--
-- Not modelled: the serial ports and their enumeration, threads and timeouts, the C and Python bindings,
-- the examples, the mock box, the texts of errors, and the parts of the device interface that only send
-- one command and wait for its reply. Of the link, the keepalive loop and the reconnect's adoption of a
-- port are not modelled either, nor are the replies about the box's capabilities, its counters, its
-- patches and its updates.
pub mod Base
pub mod Protocol
pub mod Types
pub mod Link
pub mod Device

-- ===== src/Lib.antt =====
-- USBRadioPlus, the radio channel driver: the parts that carry a channel's audio and settings from
-- the USB radio's callbacks to the controller and back.
--
-- The receive callback converts audio to frames (rust/asl3/src/pcm.rs), puts each frame with the
-- receiver's state and the latest statuses into a bounded handoff (rust/asl3/src/handoff.rs), and
-- the controller's owner takes packets out and turns them into ordered actions
-- (rust/asl3/src/adapter.rs). What the controller sends goes, through the same owner, to the one
-- program ring of the station (rust/station/src/program.rs over rust/ring/src/lib.rs), or into its
-- control snapshot (rust/asl3/src/control.rs). Settings are replaced while audio runs through a
-- mailbox that both callbacks poll (rust/station/src/update.rs).
--
-- Files. Prelude: shared names and lemmas. Handoff: `split`, `push`, `pop` and `observe` of the
-- handoff, with `push` and `pop` cut into their atomic operations (`push_step`, `pop_step`) and
-- run in any order of turns; Queue is the specification, Inv and Steps the invariant, Runs and
-- Progress the results. Pcm: `FrameAssembler`. Control: `ControlSnapshot::apply` and the checked
-- numbers of rust/core/src/radio_control.rs. Adapter: the data of a packet and the status
-- journal, with Publisher (`ReceivePublisher`), Echo (`LegacyEcho`), Dtmf (`DtmfState`) and
-- Controller (`ControllerState`) below it. Ring: the safe endpoints of the external ring.
-- Program: the producer and consumer of the program ring, with the packed qualification and the
-- direct block. Update: `UpdateMailbox` and the update calls of `StationRuntime`. Operation: the
-- records of rust/core/src/remote_operation.rs that hosts send to a remote radio, and Request:
-- `scalar` of rust/driver/src/remote_request.rs, which turns their decimals into a setting's
-- value. Commands: the port of rust/driver/src/remote_base.rs between the producers of such
-- commands and the radio's owner; Ticket has the tickets, Runs the series of calls, Inv, Moves,
-- Parts and Steps the invariant, Settled and Overlap what a ticket gets after revocation. Meter:
-- the output meter of rust/core/src/loudness_meter.rs, with the words that it publishes to
-- another thread in Published. Link: the processor of one remote link, rust/asl3/src/link.rs,
-- over that meter. Stages: the stage order of rust/core/src/stage_order.rs. Dcs: the text of
-- `DcsCode` in rust/core/src/station_config.rs.
--
-- Modelling. A 16-bit sample is its number, since these parts only move samples. Words wrap at
-- their width where the code wraps (the handoff's generation and counter, the journal's sequence,
-- the update's revision). Floats, the resampler, the radio and the external ring are types and
-- functions that the definitions take as parameters. The atomic operations of the handoff and of
-- the meter's published words take effect in one total order, so orderings weaker than that are
-- not examined. An update's control calls are single steps between the callbacks' polls: a poll
-- that falls inside a call finds its slot as it was before or after the call's store to it, and
-- acts on nothing else. A call of the command port is one step, except that a completion can also
-- be cut into the owner's verdict, the claim (in `take_completion` with the test for retirement),
-- the write of the error cell and the push, with any other calls in between. A pointer is what it
-- points to. The conversion loop of `publish` is given its input's length and the assembler's
-- capacity in rounds, each of which uses input or fills the assembler. `next_action` is given
-- three rounds, one for each phase of a delivery.
--
-- Not modelled: the text parser of the control messages, float conversion, the bindings of
-- Asterisk, sound, GPIO, Hamlib and the signal processors, the configuration documents, the remote
-- base's engine and the service of its owner, and the tuning program.
pub mod Adapter
pub mod Commands
pub mod Control
pub mod Dcs
pub mod Handoff
pub mod Link
pub mod Meter
pub mod Operation
pub mod Pcm
pub mod Prelude
pub mod Program
pub mod Request
pub mod Ring
pub mod Stages
pub mod Update

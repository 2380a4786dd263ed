-- ===== src/Lib.antt =====
-- The communication board of the 99L rocket: a model of the parts of its firmware that decide.
--
-- The board stands between the CAN bus of the mission board and the LoRa link to the ground. CAN frames
-- are decoded and kept in a cache, from which the periodic packets are built; commands from the ground
-- come as uplink frames, are registered under their transaction and forwarded on the bus, and the
-- mission's results are sent down and replayed. A recovered log arrives in fragments that are joined
-- to chunks. The scheduler decides which of the packets is transmitted and when. The GNSS receiver
-- gives the position that the periodic packets carry, and the time.
--
-- The files and what they model:
--   Base            the names that all use; `Base.Bits` the bit operations of Rust's unsigned integers,
--                   `Base.Checked` their checked and saturating arithmetic, `Base.Result` results as
--                   values, `Base.Lists` lists over the native numbers;
--   Can/Protocol    src/can/protocol.rs. `Messages` has the structs and the enums of messages and
--                   errors, `MissionEnums`, `CommandEnums` and `RecoveryEnums` the enums of one byte,
--                   as instances of the interface `WireEnum`; `Decode` is `CanRxMessage::decode_standard`
--                   with one function for each arm, `Encode` is `CanTxMessage::encode_payload`,
--                   `ControlRoll` the methods of `ControlRollTelemetryV2`. `Wire` and `Reader` describe
--                   both directions independently of the code;
--   Can/Cache       src/can/cache.rs: `CanCache`, `Latest` and the sequence checks;
--   Can/Command     src/can/command.rs: `TransactionTracker`, `register` and `apply_result`;
--   Can/Recovery    src/can/recovery.rs: `RecoverySession` and `RecoveryAssembler`, whose method `start`
--                   is `begin` and whose `new` is `idle`;
--   Can/Health      src/can/health.rs;
--   Lora/Scheduler  src/lora_scheduler.rs: the decisions of the schedule;
--   Lora/Checksum   the checksum of the frames of src/lora_uplink.rs;
--   Lora/Uplink     src/lora_uplink.rs: `decode_uplink` and `UplinkFrameBuffer`. `Wire` describes the
--                   frames independently of the code;
--   Lora/Payload    src/payload.rs: `Packets` has the structs, `Writer` is `BitWriter`, and `Encode` has
--                   the numbers that each encoder writes, with their widths, and
--                   `ApplicationPacket::encode`. `Writer/Read` reads a frame independently of the code;
--   Lora/Timing     src/lora_timing.rs: the statistics of a metric, and `TimingCollector::record`, whose
--                   steps are the functions of `Collector`;
--   Lora/Periodic   src/tasks/lora_task_base.rs: `periodic_packet` and the functions that it calls. The
--                   atomics and the cache that it reads are arguments; `Status` has the status bits and
--                   `Packet` the packets;
--   Gnss/Time       src/gnss/time.rs: `parse_rmc_datetime` and what it calls. `Calendar` counts the days
--                   one by one, with a table of the months of its own;
--   Gnss/Ack        src/gnss/settings.rs: `AckParser` and the loop of `wait_for_ack`;
--   Board           src/state.rs and the tasks that share it. `Channel` is the interface of the channels,
--                   `State` the record of the statics, `Downlink` the queues for the radio with the
--                   functions that fill them;
--   Board/Runtime   src/tasks/can_communication.rs: the states of the driver; `Stats` has its statistics,
--                   `Received` what a frame does, `Transfer` what it does to the transfer of a log, and
--                   `Transmit` the outcome of a transmission and the rest of the loop; `Frame` is
--                   src/can/tx.rs;
--   Board/Commands  src/tasks/lora_task.rs: `command_process_task`, whose private enum `LocalCommand` is
--                   `LocalAction`. The functions of the same names in src/tasks/lora_task_base.rs are
--                   not used by the program;
--   Board/Uplink    src/tasks/lora_task_base.rs: `lora_rx_task`;
--   Board/Gnss      src/tasks/gnss_task.rs and the end of `encode_position` of src/gnss/telemetry.rs: the
--                   receiver's state, its position and clock, and `gnss_time_response_task`;
--   Board/Radio     src/tasks/lora_task_base.rs: the parts of `lora_tx_task` that decide;
--   Board/Power     src/tasks/recovery_power_task.rs;
--   Board/Steps     the tasks as a step relation on the shared state, with what is reached from its
--                   initial values; the lemmas that each step keeps it well formed are in
--                   Board/Invariant, those on the answers to the ground in Board/Answers.
--
-- A method that changes its object returns the object beside its result. The unsigned integers are
-- native numbers: what wraps is written with `%`, what is checked or saturates goes through
-- `Base.Checked`, and where a field's width matters it is a hypothesis. Signed fields of a message are
-- kept as the raw numbers that the frame carries. An array is a list of its length; the slots of the
-- tracker are lists of 16 options.
--
-- The one loop that is not structural, `while source < fragment_length` in
-- `RecoveryAssembler::push`, runs on fuel. A fragment has 6 bytes and each round copies at least one of
-- them, so the fuel is 6.
--
-- The loops of src/gnss/time.rs run over a number of months or digits that is known at their start.
--
-- The channels are those of embassy-sync. Their operations are the parameter `Channels`, and what the
-- theorems rely on is `IsFifo`: a queue in order of arrival, where `try_send` fails exactly when it is
-- full. A value that an awaited `send` waits to put in counts among the contents, and what a handler
-- does after it is taken to the same step. The driver of the CAN controller answers through
-- arguments, as do the clock and the radio.
--
-- Not modelled: the loops around the steps, the drivers and the locks, which are asynchronous and
-- belong to the target; which of its futures `lora_tx_task` polls first; the rows of the SD card, of whose
-- task `Step` knows what it takes and the flags that it sets; the sentences of src/gnss/nmea.rs and the
-- arithmetic of src/gnss/telemetry.rs before the rounded metres, which are
-- floating point numbers; and the build for timing measurements of the envelope's request time.
pub mod Base
pub mod Board
pub mod Can
pub mod Gnss
pub mod Lora

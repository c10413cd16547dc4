-- ===== src/Lib.antt =====
-- A gateway for the sensors of a thermal recovery well. Bytes come in from serial and TCP sensors, are
-- decoded as Modbus RTU frames (internal/protocol, internal/crc), become hydrodynamic states of the
-- steam (internal/thermo, internal/driftflux), and are watched by a safety controller that closes the
-- choke valve through override packets (internal/choke). This library models these parts.
--
-- Crc: internal/crc/crc16.go. `crc16_modbus`, `validate_crc16`, `append_crc16` are CRC16Modbus,
--   ValidateCRC16, AppendCRC16; `crc_table` is what init leaves in crcTable. Crc.Division has the division of
--   polynomials that the checksum stands for.
-- Protocol: internal/protocol. `decode_modbus_rtu` is DecodeModbusRTU with the five counters of
--   BitDecoder as explicit state, `extract_sensor_data` is ExtractSensorData, and `stream_decode` is
--   StreamDecode over a list of arrivals, each of which says what the output channels can take.
-- Thermo: internal/thermo. One function for each function of properties.go.
-- Driftflux: internal/driftflux. `solve` is Solve, `solve_drift_flux` the iteration solveDriftFlux,
--   `process_loop` the loop processLoop over the samples that arrive, with the case that each select takes;
--   Driftflux.Loop.Lifetime has NewDriftFluxSolver, Start and Stop.
-- Choke.Valve: internal/choke/valve.go. Choke.Controller: controller.go, `assess` is Assess.
-- Choke.Override: modbus_override.go, the builders of the packets. Choke.Sender: sender.go,
--   `send_packet` is sendPacket, and `wire` what it gives to the connection. Choke.Interceptor: interceptor.go, `process_frame` is processFrame, in
--   which controller, builders and sender meet.
-- Choke.Sender.Loop and Choke.Interceptor.Loop: the loops sendLoop and processLoop; Choke.Interceptor.Setup: what
--   the constructors make.
-- Gateway.Serial: internal/gateway/serial.go. `read_loop` is readLoop over the events of its rounds; Port is the
--   opening, closing and writing. Gateway.Tcp: internal/gateway/tcp.go. `accept_check`, `accept_add`,
--   `mark_closed`, `hang_up` and `delete_connection` are the actions of acceptConnections and
--   cleanupConnection, which `act_all` puts in any order; Handling is handleConnection.
-- Pipeline: internal/pipeline/pipeline.go. `decode_item` and `solve_item` are the bodies of decoderWorker and
--   solverWorker; `act_all` runs any order of the workers' steps. Wire joins it with Protocol and Driftflux.
-- Frame: internal/frame/output.go. The formats; Frame.Clients the registry of TCP clients, with the actions of
--   its goroutines; Frame.Output the file, `process_loop` (processLoop), `start` and `stop`.
-- Config, Logger, Safety: internal/config/config.go, pkg/logger/logger.go, internal/safety/recover.go.
-- App: cmd/gateway/main.go. `init` builds all of the above from a configuration, and `hand_out` gives each frame
--   of the solver to one of its two readers. App.Run has start, stop and `run`, which is main from init on;
--   App.Main has main with the file of the configuration, App.Samples the two readers of the samples,
--   App.Stats the statistics that are printed, and App.Barrier follows a response to the valve.
-- Base: what the parts share, on numbers, bytes, bits, lists and results.
--
-- Conventions. A byte is a number below 256, a uint64 counter is kept modulo 2 ^ 64, and a time is its
-- number of nanoseconds. A float64 is a value of any type `F` with an instance of `Float`, the operations
-- of Go and its package math that the program uses; where a theorem needs facts of IEEE 754 it takes them
-- as `IsFloat`, which a type of fractions satisfies. NaN is possible: `neither below a nor above b` is all
-- that is said of a value in a range. A product and a sum are rounded one after the other. Errors are
-- values; where the code can panic the model returns `none`. The clock, the network and the channels enter
-- as arguments. A mutex makes a method one step, and a goroutine is a list of the things that it receives.
--
-- Loops. `nu_rounds` has the 100 rounds of the source and `solve_rounds` its MaxIterations, as a number
-- that counts down; `send_attempts` has RetryCount + 1 attempts. These are the bounds of the source's own
-- loops, so no round is lost; all other loops follow a list.
--
-- Concurrency. Where goroutines share a map or a channel (Frame.Clients, Gateway.Tcp, Pipeline) a run is a list of
-- their actions in any order, each of which is one locked or atomic piece of the source; a loop that only one
-- goroutine runs is a list of the things that it meets.
--
-- Between start and the signal `run` takes a `Life`: the steps of the pipeline's workers and of the solver's own
-- loop, which share their channels, in one order (App.Samples), and the actions of each other component in an order
-- of its own. The frames that are handed out in a life are any: they are not taken from the pipeline's channel.
--
-- Not modelled: the flags of the command line and the loops that only log (cmd/gateway), the flushing of
-- the output file (internal/frame), the waiting for goroutines to end, and the texts of errors and log lines.
-- The network, the file system, JSON, the formatting of numbers and the bits of a float64 are arguments.
pub mod Base
pub mod Crc
pub mod Protocol
pub mod Thermo
pub mod Driftflux
pub mod Choke
pub mod Gateway
pub mod Frame
pub mod Pipeline
pub mod Logger
pub mod Config
pub mod Safety
pub mod App

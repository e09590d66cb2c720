-- ===== src/Lib.antt =====
-- The Modbus gateway: requests of Modbus masters, which arrive over TCP or a serial line, are routed
-- by their slave id to downstream slaves, and the responses go back.
--
-- The parts, with their files here and in the repository:
--
-- - modbus/crc/crc.go: Crc. A `Crc` is the struct, `push_byte` one round of `PushBytes`; the two
--   tables are in Crc/Tables, the polynomial definition in Crc/Reference.
-- - modbus/modbus.go: Pdu. The protocol data unit and the codes.
-- - modbus/rtu/adu.go, constants.go: Rtu/Adu. `Decode`, `Encode`, `Verify`; Rtu/Adu/RoundTrip and
--   Rtu/Adu/Accepts are about them.
-- - modbus/rtu/framer.go: Rtu/Framer. `ReadResponse` is a loop over a stream, one `step` for each
--   byte. Its `Reader` holds the Go variables: the state, `data[:n]` as `buffer`, `toRead` and
--   `crcCount`. Rtu/Framer/Bounds, Finds, Taken and Lengths are about it and the
--   length functions.
-- - transport/transport.go: Transport. A handler is a function on the state of what lies behind it.
-- - transport/tcp/adu.go, server.go, client.go: Tcp/Adu, Tcp/Server, Tcp/Client. The server's loop
--   `handleConnection` runs over a list of what arrives; Tcp/Server/Accepting has `Start` and the
--   connections, whose rounds take turns in any order and share the state behind the handler. The
--   client's `Send` runs over what the network does during the call; Tcp/Client/Transactions is about
--   a client over its calls, and Tcp/Client/Exchange puts client and server together.
-- - transport/rtu-over-tcp/client.go, server.go: RtuOverTcp/Client, whose `Send` reads its answer by
--   `ReadResponse`, and RtuOverTcp/Server, the loop of one connection.
-- - transport/rtu/client.go, serial.go, server.go: Serial/Client and Serial/Port, `Send` over what
--   happens on the line during the call and the port with its idle timer; Serial/Server, the scan loop
--   and what a goroutine does for a request. Serial/Server/Interleaved has the goroutines take turns in
--   any order, with a step for the handler's call and one for the write. They share the one buffer that
--   the loop reads into: the data of a request are a slice of it, so a `Read` between the start of a
--   goroutine and the return of the handler changes them. `IsQuiet` says that there is none, as with a
--   master that waits for each response; Tests/Servers has a run without it, in which the handler gets
--   one request twice and the other never. Serial/Server/Answers puts the scan loop before them.
--   Serial/Settings is `NewClient` and the `Start` of the server, with what the driver of the port is
--   given.
-- - Reads has what both RTU servers do with `Read`: a list of what arrives, grouped into the pieces
--   that single `Read`s return and with the errors that they return; the first byte of a frame, and
--   the loop that fills a part of the buffer. Rtu/Round is what one round of their loops comes to, and
--   Rtu/Framed a frame as these loops take it apart.
-- - internal/gateway/gateway.go: Gateway/SlaveIds has `ParseSlaveIDs`, Gateway/Routing
--   `handleRequest` and the setup of the routes in main.go, Gateway/Start the calls that `Start` makes.
-- - internal/config/config.go: Config. The structures and `LoadConfig`, over the calls of viper; its
--   defaults and fixups are in `fixup_serial`, and Config/Fixes is about them.
-- - main.go: Main. `main` from the loaded configuration to the gateways that it starts, with
--   `createDownstream` and `setupLogger`. A pointer to a client is the number of its configuration
--   in the gateway, with what it points to. Main/Routes and Main/Ready put the parts together.
-- - internal/local-slave/model/model.go: DataModel. A table is a function on addresses, whose
--   accesses are checked against `MaxAddress`; each operation returns the new model.
-- - internal/local-slave/slave.go: Slave, with `Process` and its handlers, over the interface of
--   internal/local-slave/persistence/storage.go, which is Storage.
-- - internal/local-slave/persistence/layout.go, file.go, mmap.go: Persistence/Layout, FileStorage and
--   MmapStorage, over the calls of the operating system in Persistence/Disk; sql.go: Persistence/Sql,
--   over the calls of the database in Persistence/Sql/Calls. Each is a storage of Storage. The tables of
--   a loaded model are views of the storage's bytes; `image_of` is these bytes, as the model says.
-- - transport/local/client.go: Local, `Send`, and Local/Startup, `NewClient`, over a sum of the
--   storages. Local/Serves puts the TCP server, the gateway and the local slave together.
-- - Base has lists and Boolean tests over native numbers, facts on bits and words, and `Outcome`,
--   what a Go call comes to: a value, an error or a run-time panic. Tests has concrete runs.
--
-- A byte is a number below 256 and a word one below 65536; conversions that wrap are written as
-- remainders, and an index or slice expression out of range is a `panic`. A shared object that a method
-- changes is passed and returned. A mutex is held for the whole of each operation that takes one, so
-- that these are single steps.
--
-- All loops are structural, over the bytes or the number of rounds left. The loops of the RTU servers
-- take the number of rounds until their context is done; more rounds than `reads` of what arrives are
-- enough to read all of it. What the clock and the operating system decide is a parameter: what ends
-- the reading of a stream, what arrives on a connection and whether a write succeeds, whether dialling
-- succeeds. The disk and the database are parameters with named assumptions: records of their calls
-- (`Disk`, `Database`), of what the calls do (`Stores`, `Keeps`), and of no call failing (`Works`,
-- `Succeeds`). Tests/Persistence has a concrete disk and a concrete database that satisfy them.
--
-- A handler's call is one step among those of the other goroutines, as it is where a client holds its
-- lock for the whole of `Send`. The calls of viper and `strings.ToUpper` are parameters, without
-- assumptions on them, and so is the order in which `range` goes through a map.
--
-- Not modelled: the driver of the serial port; the listener of the RTU over TCP server, which is that
-- of the TCP server; the command line, the wait for a signal and the writing of the log; the timeout
-- that `handleRequest` adds, whose effect is a result of the downstream; that the steps of a local
-- slave, which takes its lock for each operation on the model, can interleave within one request.
pub mod Base
pub mod Crc
pub mod Pdu
pub mod Rtu
pub mod Reads
pub mod Transport
pub mod Tcp
pub mod RtuOverTcp
pub mod Serial
pub mod Gateway
pub mod Config
pub mod Main
pub mod DataModel
pub mod Storage
pub mod Slave
pub mod Persistence
pub mod Local
pub mod Tests

-- ===== src/Lib.antt =====
-- A model of fronius-bridge, which reads Fronius inverters and meters and an EBZ meter, hands what it reads
-- to an MQTT broker and to PostgreSQL, and serves a meter's readings over Modbus.
--
-- The parts and their files:
--
--   Config.Yaml: what the parsers use of yaml-cpp. Config.Parse, Config.Names, Config.Sections and
--   Config.Services: the parsers of src/config_yaml.cpp; Config.Load: `loadConfig`. Config.Document is a
--   document as a tree, for the examples and for settings that are written out and read back.
--   Config.Types, Config.Validate: the structs of include/config_yaml.h and `validateConfig`. The checks
--   run in the source's order, each as a fold over the source's map; Config.Validate.Spec says without
--   maps what a valid configuration is.
--   Config.Buses: `deriveBuses`, with which the readers that share a Modbus transport share one bus, and
--   `deriveDeviceRegistry`, which the PostgreSQL client writes to the database.
--   Db.Errors: `DbError` with `deduceSeverity` (include/db_error.h). Db.Conn: `Conn::exec`, `Transaction`
--   and its destructor (src/pg.cpp); work on a connection is a function of what was sent before.
--   Db.Handles: `Result` and `Conn` of include/pg.h as owners of a handle that moves between objects.
--   Db.Migrator: `SchemaMigrator` (src/schema_migrator.cpp).
--   Devices: the readings and devices (include/inverter_types.h, include/meter_types.h). Doubles: the
--   operations on `double`, with include/utils.h.
--   ChangeGate: include/change_gate.h. Shutdown: include/signal_handler.h. Privileges: include/privileges.h.
--   Modbus: what is read off a `ModbusError`, and the reaction to it.
--   Readers: src/inverter_master.cpp (Inverter, with its loop in Inverter.Poll) and src/fronius_meter.cpp
--   (Meter, with its documents in Meter.Phases and its loop in Meter.Poll); Registration is how both join
--   and leave a bus, Rounding the `round` members, Json the documents.
--   EasyMeter: src/easy_meter.cpp: Telegram is `readTelegram`, Obis the parsing of its lines, Values what is
--   derived from them, Loop `handleResult`, the updates and `runLoop`, Port `tryConnect` and `disconnect`.
--   Slave: src/meter_slave.cpp: Registers and Compatible the tables of `packToModbus` calls, with
--   Registers.Meaning what a register's name says that it shows, Update `updateValues` and `updateDevice`,
--   Serve the loops of the threads, and the release of the listening context.
--   Pg: `PostgresClient` (src/postgres_client.cpp). Queue is `enqueue`, Statements and Inserts the rows,
--   Client the members, Events `processEvent` with the upserts and inserts, Session
--   `connectAndPrepare` with `syncRegistry`, Time `timeFromMillis` with the calendar of std::chrono,
--   Params the texts that libpq gets (include/pg.h), Inserts.Columns the columns of the INSERT texts,
--   Producers the callbacks for the readers, Worker the loop `run`, Recovery what they do
--   together.
--   Main: the callbacks that src/main.cpp wires between the readers and the consumers. Main.Start: what
--   `main` constructs, in which order, and how it ends.
--   Backoff: the delay between attempts to connect, which PostgreSQL and MQTT compute alike.
--   Mqtt: `publish` and the drain of a topic's queue (src/mqtt_client.cpp); Setup is the constructor and the
--   destructor, Worker `run`, Network `networkLoop`, Callbacks the callbacks of libmosquitto.
--   Examples: the theorems at concrete sites, servers, streams and readings.
--
-- How they interact: the readers hand their readings to `enqueue`, `publish` and `updateValues`; the
-- worker takes events from the queue, and its work goes through Db.Conn. The worker is a step relation, in
-- which events, signals and failures of other parts fall anywhere between its steps. The readers' loop is a
-- sequence of polls and of libfronius' callbacks in any order.
--
-- Parameters stand for what the program calls: yaml-cpp's nodes and conversions (`Yaml`), the database
-- server with libpq (`Server`, whose answer may depend on all that was sent before, and which may have carried
-- out a COMMIT whose answer was lost), libfronius' getters
-- (`InverterReads`, `MeterReads`), errors (`Errors`) and `packToModbus` (`Packing`), the kernel and the user
-- database (`Host`), `std::hash`, `std::regex_search` and `std::stod` (`Patterns`), the broker's answers,
-- what each call of libmosquitto, on a socket or on a serial port returns, and the operations on `double` (`Doubles`). The
-- migrations that the build embeds are lists that the theorems range over.
--
-- No fuel is needed: the loops are recursions on a list, and the loop `run`, which need not end, is one
-- step at a time. `readTelegram` gives no result as long as it waits for another read. C++ `int` is an
-- integer, since no value that the modelled code computes leaves its range; delays in seconds are
-- 64 bits wide in the source.
--
-- Not modelled: what yaml-cpp throws for a key of a scalar and for a syntax error, the layout of a Modbus
-- frame, what libfronius does on a bus, how a client's worker of the TCP server makes and releases its
-- context and socket, the command line's parser, logging and messages'
-- texts, JSON's printing, and SQL as such: one constructor stands for each text, and the
-- columns that an INSERT of values names are a list.
pub mod Prelude
pub mod Doubles
pub mod Config
pub mod Db
pub mod Devices
pub mod Backoff
pub mod ChangeGate
pub mod Shutdown
pub mod Privileges
pub mod Modbus
pub mod Slave
pub mod Readers
pub mod Main
pub mod Pg
pub mod Mqtt
pub mod EasyMeter
pub mod Examples

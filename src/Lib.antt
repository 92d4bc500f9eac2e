-- ===== src/Lib.antt =====
-- goico, a Go framework for services: a model of the parts under pkg/ that keep state or compute,
-- and theorems about it. Each module below is named for a part; a function has the name of the Go
-- function in snake case, and the comment above it gives the Go name where it differs.
--
-- Shared: Go's maps as lists in which each key stands once (GoMap; the order of the list is one
-- that a range loop may take), comparable types (Key), slices (Lists), pairs of a value and an
-- error (Result), and what a call may do besides returning, which is to panic or to block
-- (Outcome).
--
-- Database: pkg/database/table.go. Keys and their encoding (Key), the bound of a prefix scan
-- (UpperBound), and Table's methods (Table) over a key-value store. The store, cockroachdb/pebble,
-- is the record Engine with its documented behaviour as laws; Tests holds a concrete one.
--
-- Broadcaster: pkg/broadcaster. The status barrier, listeners with their buffered channels, the
-- methods of Broadcaster, its worker and the goroutines that Write starts. A method is a step on
-- the state; the worker and each goroutine advance by steps of their own, and a schedule is a list
-- of such events. A listener is a number, the address of its value in the heap. A send has a Pick
-- that says which case of the select runs.
--
-- Collection: pkg/collection and pkg/convert. Queue, set, map and slice helpers. A method that
-- holds its lock from beginning to end is one step.
--
-- Sync: pkg/syncutil/gvalue.go and pkg/syncutil/once.go. The typed atomic cell, and
-- OnceDisposable, whose goroutines are places in the source that advance by one access to shared
-- state at a time.
--
-- Env: pkg/env. Command line arguments (Args), typed reads (Getters) and the order of the files
-- (Load, with its theorems in Load/Precedence). The process environment is a map; godotenv is the
-- record Dotenv with its documented behaviour; the join of paths is a parameter.
--
-- File: pkg/ioutil/ioutil.go. LastLines, whose outer loop runs on fuel, one more than the size of
-- the file, of which the theorem on it says that it is enough; the oldest files of a directory
-- (Oldest), all its files and all its directories (Listing); and the functions that make and write
-- files (Write), on a disk that is a map from files to contents. What the operating system
-- refuses, and which file a path names, are inputs. A string that LastLines builds byte by byte is
-- a list of runes, encoded in UTF-8 when it is returned.
--
-- Cache: pkg/service/grpc/cache/cache.go and the Events loop of pkg/service/grpc/cache/service.go.
-- The cache holds a map and, if it publishes, a broadcaster of Broadcaster, whose operations it
-- calls (State); a call of Events is the place where it stands and what wakes it (Events). Its
-- client (Client), whose receiver is Recv of pkg/service/grpc/stream/recv.go (Recv), and the
-- service round it (NewService).
--
-- Service: BufConn of pkg/service/conn.go (Conn), where a listener is the number of its creation;
-- New and NewSidecar of pkg/service/http/service.go (Http), over what service.New, listeners and
-- route functions answer, with the setters of their options (Http/Setters), its handlers
-- (Http/Handlers) over the response that its TimeoutHandler sends when they have ended, and the
-- frames that are logged of a panic (Http/Recover); New and Dispose of pkg/service/grpc/service.go
-- (Grpc) and New of pkg/service/process/service.go (Process/New), over the same; the two
-- goroutines of that file's DoServeWithDelay as a state machine (Process), in which an event is
-- one access to shared state; the status of pkg/service/base.go, with the Serve and DoServe of the
-- HTTP and gRPC services that set it (Base); and the health check of pkg/service/grpc/service.go
-- (Health) over the record HealthServer, the documented behaviour of the library that publishes
-- the status. The containers and the health clients are in Container.
--
-- Wasm: pkg/runtimes/wasm. The guest, run by wazero, is the record Guest: its functions and its
-- memory answer by the history of all that has happened, so that no assumption on its allocator is
-- made where none is stated. A method runs on that history, which is also the trace that the
-- theorems speak of (Guest); a deferred call runs however the body ends. Module has the methods,
-- Moves and Blocks what they take and give back of the guest's memory, New the lookup of the
-- guest's functions, Runtime the cache's directory.
--
-- Log: pkg/log/log.go, the configuration that the logger gets from the environment, and its
-- writers and level.
--
-- Obs: New and Shutdown of pkg/service/obs/otel.go over what OpenTelemetry answers. Config has
-- what New reads of the environment, Opening what is open when nothing fails; Setup keeps the
-- exporters, connections and providers that New opens and those it shuts down, and ends where New
-- returns, fails, or calls Shutdown through a nil tracer. New and Keeps have the theorems.
--
-- Not modelled: the goroutines of the DoServe of the HTTP and gRPC services; generated protobuf
-- code; the options of telemetry, profiling and YAML, which hand over to libraries; and the
-- packages of test helpers. Go's integers are the natural numbers here except where a sign or a
-- width matters, which is then written out.
pub mod Shared
pub mod Database
pub mod Broadcaster
pub mod Collection
pub mod Sync
pub mod Env
pub mod File
pub mod Cache
pub mod Service
pub mod Wasm
pub mod Log
pub mod Obs

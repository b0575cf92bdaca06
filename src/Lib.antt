-- ===== src/Lib.antt =====
-- Verification library of clickhouse-c-rs, the Rust bindings of the ClickHouse native protocol client
-- clickhouse-c.
--
-- The crate is a safe layer over C functions. Its own logic checks what it hands to C, converts what
-- comes back, owns what C allocates, and drives the protocol client over a transport. The C library is
-- not part of the repository: its functions and the values of its constants are parameters, with what
-- the crate relies on as named hypotheses (`Sys.IsHeader`, `IsNodes`, `Published`, `Opens`,
-- `FreesPackets`, `Frees`, `IsQueue`, `IsFormat`). So are Rust's global allocator (`IsGlobalAlloc`),
-- rustls, and the asynchronous transport (`IsTransport`, and `MakesProgress` where it must).
--
-- The modules, and the code that each is about:
--   Base         lists, tests, integers, UTF-8 replacement and matches on constants.
--   Sys          src/sys.rs: the constants, each enum's values distinct.
--   Error        src/error.rs: `check`, `ErrorKind::from_code`, and messages in C arrays.
--   Types        src/types.rs: `Kind` and `IntervalUnit`; `TypeAst` and `TypeRef` over what the C
--                accessors return (Types.View).
--   Block        src/block.rs: `ColumnLayout`, and the views of a `Column` over what the C accessors
--                return, in a build without debug assertions; `Block::validate` and the reader's `read`.
--   Alloc        src/alloc.rs: the functions that clickhouse-c calls to allocate, over a Rust
--                `GlobalAlloc`; the blocks that C holds, and a session of its requests.
--   Codec        src/codec.rs: `Compression`, and which callbacks a codec has.
--   Builder      src/builder.rs: the checks, the constructors of `ColumnBuilder` (Builder.Build), and
--                `BlockBuilder` with the C structure that mirrors it.
--   Query        src/query.rs: `RawQueryOpts::new`; a pointer is a place in the vector of CStrings.
--   Client       src/client.rs: `PacketKind`, `Event::from_raw` and exceptions; a block or exception
--                that C allocated is a handle. Client.Opts is `ClientOpts`, Client.Calls is `Client`,
--                and Client.Payloads has the Drop of blocks and exceptions.
--   Io           src/io.rs: `SliceIo`, `CancelToken`, and `PosixIo` with its deadline.
--   Tls          src/tls.rs: `TlsIo::connect` and the callbacks, over rustls.
--   BuildScript  build.rs: the parsers of C headers (Comments, CInteger, Enums, Declarations), the text
--                of the files that it generates (Emit, Inventory), and `main` (Script). A text is a
--                list of code points, and a panic is `none`; with overflow checks on, counting past
--                an `i64` panics. CInteger.Grammar has C's literals, Emit.ReadBack
--                reads the constants file again, and Emit.Macros and Emit.Stated say what a header
--                states.
--   Parity       src/parity.rs: the checks of the bindings against what build.rs generates.
--   Ioless       src/ioless.rs: the operations of `IolessClient`, which pass the C client's state on.
--   AsyncClient  src/async_client.rs: `drain_out`, `pump_until_ready` and what is built on them, up to the
--                constructors that open sockets (AsyncClient.Connect).
--   Tests        stand-ins for the C functions and a transport, and the theorems at concrete inputs.
--
-- Loops: `drain_out` runs on one iteration more than there are bytes queued, which is enough since
-- each iteration but the last writes at least one. `pump_until_ready` waits for a peer, so that its
-- fuel is a parameter; `Needs` states when a given amount is enough. A run that has no fuel left is an
-- outcome of its own.
--
-- Messages are kept as their pieces, with numbers not yet printed. Numbers of a fixed width are ℕ with
-- the width's bound where the code depends on it. A builder that fails leaves no column; what it left
-- in the caller's scratch array is not followed.
--
-- Not modelled: the C shims in src/; the built-in codecs, which C code fills in; and formatting for
-- display.
pub mod Base
pub mod Sys
pub mod Error
pub mod Types
pub mod Codec
pub mod Alloc
pub mod Client
pub mod Block
pub mod Io
pub mod Query
pub mod Tls
pub mod BuildScript
pub mod Parity
pub mod Builder
pub mod Ioless
pub mod AsyncClient
pub mod Tests

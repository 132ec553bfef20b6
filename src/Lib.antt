-- ===== src/Lib.antt =====
-- replstoke: a server that keeps a REPL process running and hands it to one client at a time over a
-- socket, and the client that sends input to it and prints the response up to an end marker.
--
-- The program's parts and the files that model them (paths are from the repository's root):
--
-- - Protocol (src/protocol.rs): packets with a text header on the wire. Types has the constants, the
--   packet and the errors; Encode the server's side with the split of long payloads; Read the packet
--   reader as state passing on the bytes still to come, which end with a clean end or an I/O error; Ctl
--   the control messages. Framing and RoundTrip relate both sides; Progress is about the reader.
-- - Marker (src/marker.rs): Search is `find` and `overlap` on one marker, Set is `Markers`, Scanner is
--   `MarkerScanner` (it stops at the first match; the client and the boot detectors use it), Response is
--   `ResponseScanner` (it goes on behind each match; the server uses it). Clear, SetLaws, Bounds and
--   Prefix have the lemmas on matches that cross a cut; Stream, ResponseLaws, Watch and Complete are
--   about the scanners.
-- - Server (src/server.rs): Core is `Phase` and `Core`, the control state; Shared is `Shared`, one
--   function for each critical section, with the client's connection and the REPL's stdin as the
--   bytes written to them and whether a write fails; Pump is one round of the threads `repl_out`
--   and `repl_err`, a list of actions on the shared state, since other threads may act between two
--   of them; Supervise is the main loop's supervision. Core/Lifecycle has the table of
--   STATE_MACHINE_DESIGN.md as a step relation; Core/Requests, Shared/Delivery, Pump/Routes and
--   Supervise/Breaker follow it. Threads has the pumps and `client_in` as step relations and System
--   puts them beside the main loop, over one `Shared`, in any order: a step is a method of `Shared`
--   or what a thread does on its own, and what a thread has read stays in its program counter.
--   System/Methods, System/Counts and System/Moves have what each step keeps, System/Kept and
--   System/Invariant the invariant, System/Streams, System/Late, System/Stale, System/Progress and
--   System/Shutdown what runs lead to. System/Service is the abstract service that clients see, and
--   System/Serves relates the threads to it. Threads/Rounds and Threads/Answered follow the REPL's
--   output through `repl_out` chunk by chunk, System/Opening a request from `accept` to the REPL,
--   and System/Answer puts both together with the client. `stop` and `begin_booting` have two parts
--   in the code and are one step. Setup is how `run` begins and ends, as the list of the calls that
--   take and give back something; Utc is `format_utc`. Setup/Held, Setup/Pidfile and Utc/Back are
--   about these.
-- - Client (src/client.rs): how a framed response is read, routed to the output streams and ended.
--   Client/Reading is about its loop, Client/Response and Client/Greeting about a response from the
--   server's packets on, Client/Lossless about own streams that fail. Client/Raw is the client without
--   framing; Client/Run connects, sends the input and concludes; Client/Watchdog has the reading, the
--   watchdog and the clock as a step relation.
-- - Cli (src/cli/mod.rs, src/cli/config.rs): Config, Raw (the options), Tokens (the tokenizer) and Build
--   (the checked configurations), with Build/Valid; Refusal is about the errors of all of them.
-- - Names (src/names.rs): default names of sockets and pidfiles, and their discovery in a directory.
-- - Platform (src/platform/unix.rs) and General (src/general.rs): `--kill`, over a record `Os` of the
--   system's calls, with the termination of a process and of the REPL's group. Platform/Terminate,
--   Platform/Target, Platform/Zombie and General/Kill are about it.
-- - Platform/Windows (src/platform/windows.rs): the same with job objects, over a record `Kernel` of
--   the calls of kernel32. Its child Ledger keeps a record of the open handles beside the system.
-- - Transport (src/transport.rs): listeners and streams over two families of sockets, which are
--   parameters; Transport/Blocking is about what is accepted.
-- - Repl (src/repl.rs): the start of the REPL's process; Repl/Start joins it with the configuration.
-- - Error (src/error.rs) and Main (src/lib.rs): errors, the dispatch on the mode and exit codes.
-- - Strings: what the source uses of Rust's text: decimal numbers, lossy UTF-8, `split_once`, `trim`.
-- - Common: shared names and lemmas on lists, results and byte strings. Tests: runs of the theorems.
--
-- How the parts meet: a pump feeds each chunk of the REPL's output to a scanner and asks Shared to route
-- what comes out, which Protocol puts into packets; a match ends the response in Core, which lets the
-- next client in. The client takes the packets apart and feeds each stream to a scanner of its own.
--
-- Numbers are natural numbers: u64 counters wrap at 2 ^ 64, sizes are those of buffers in memory, and
-- instants are milliseconds. Bytes are numbers below 256, by convention. Loops run on fuel: the length
-- of the payload for `encode`, as each packet takes at least a byte; the length of the buffer for
-- `ResponseScanner::feed`, as no marker is empty; the length of the stream and one for the client, as
-- a packet takes at least a byte; the number of arguments for the tokenizer, as each round takes one.
--
-- `terminate_pid` sleeps 20 ms a round, so its rounds are a twentieth of the timeout and one more.
--
-- Not modelled: the help texts (src/cli/help.rs), which are constants, and the printing of an error
-- and of the help. The calls of the system are parameters: spawning, signals, files, the listing of a
-- directory, the clock, sockets, handles and the parsing of a number of seconds. The loop of `run`
-- and its threads are steps in any order, so that a scheduler is not modelled; the threads' runs do
-- not use Transport and Platform, whose results are what a step is free to see. A step stands for a
-- call that has returned: that one may block for ever (a write to a client or to the REPL under the
-- lock of its handle, the join of a pump) is the absence of its step, and no theorem says that a
-- thread must move. Which bytes a buffer keeps from a write to the flush behind it is not modelled. A
-- number of seconds that is too big for a `Duration` makes the parser panic: the parsing of numbers
-- is one that returns, so such command lines are left out.
pub mod Common
pub mod Strings
pub mod General
pub mod Main
pub mod Transport
pub mod Platform
pub mod Repl
pub mod Protocol
pub mod Marker
pub mod Server
pub mod Error
pub mod Client
pub mod Cli
pub mod Tests
pub mod Names

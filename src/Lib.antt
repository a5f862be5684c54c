-- ===== src/Lib.antt =====
-- Verification of interactive-process-mcp, a server that lets agents run long-lived interactive
-- processes. A session pairs a process with a multi-reader output buffer and a log of messages; the
-- messages and the list of sessions are kept in JSON files; what a client reads has its terminal
-- control sequences stripped and its blank lines folded.
--
-- Prelude: shared names, texts as lists of bytes, integers, association lists for Go's maps.
-- Strings: the functions of Go's package strings that the program calls.
-- Json: JSON documents as values, and the replacement of invalid UTF-8 that marshalling makes.
-- Api: pkg/api/types.go; Api/Documents and Api/Sessions are the documents of its struct tags.
-- Storage: internal/storage/store.go over a file system of its own. A write is a list of steps, so
--   that a crash is a stop between two of them; the answers of the system are in `Env`.
--   Storage/Log is a log of saves, the store's abstract view.
-- Messages: internal/message/message.go over Storage, an Append as one step; Messages/Log is the
--   log of what it recorded, and Messages/Growth is about the growth of the indexes.
--   Messages/Interleaved has the steps of many calls at once under the lock of their session,
--   Messages/Mutexes that lock.
-- Buffer: internal/buffer/buffer.go. The ring buffer library is the parameter `Ring` (Buffer/Queue)
--   with its documented behaviour, which Buffer/Sample meets. A mutex makes an operation one step;
--   a `Read` that waits is a list of rounds, each with what its tests see and what others do
--   meanwhile; Buffer/Wakeup is that loop beside its timer goroutine, as a step relation.
-- Ansi/Compact: internal/ansi/compact.go. Ansi/Strip: internal/ansi/strip.go; the removal takes
--   fuel, and the length of the text is enough since each match drops a byte. Ansi/Strip/Regex is
--   the regular expression as it is written there, and Ansi/Strip/Reference the removal of its
--   matches.
-- Sessions: internal/session/session.go. What a goroutine or a client does is an `Event`; theorems
--   are about every list of them. What SSH answers is given to a step. The body of `exitOnce` is
--   three steps: the metadata under the lock, the close of the buffer, and the message of the exit.
--   Sessions/Lifecycle is about the exit, Sessions/Lifecycle/Advance about what every operation does
--   to the metadata. Sessions/Output models readOutput, Sessions/Manager is internal/session/manager.go,
--   Sessions/Files the transfer of files, over a base64 codec that is a parameter, Sessions/Listing
--   the listing of a directory. Sessions/Contract is what a session promises of its output, in logs
--   of its readers; Sessions/Manager/Locks is CleanupAll beside a writer of the registry.
-- Mcp: the arguments and the start request of internal/mcp/handlers.go; floats are a parameter,
--   `Floats`. Mcp/Handlers, Mcp/Reads, Mcp/Queries and Mcp/FileTools are its handlers; Mcp/Tools
--   is what internal/mcp/server.go registers: the parameters of each tool and, in `call_tool`, its
--   handler. Mcp/Defaults, Mcp/Isolation and Mcp/Composition compare calls of tools. Mcp/Logging:
--   internal/mcp/logging.go, a call with its two lines in the log. Mcp/Runs is a run of the whole
--   server: tool calls, goroutines of the sessions and the cleanup, one behind the other in any
--   order; the modules named History follow what each part does to the files of the messages.
-- Ssh: Ssh/Client is internal/sshclient/client.go, Ssh/Server internal/sshserver/server.go; what is
--   opened and closed is a list of actions, and the answers of the SSH libraries are given.
--   Ssh/Codes is about the way of an exit code through both, Ssh/Sizes about that of the size of the
--   terminal that a start asks for.
-- Config: internal/config/config.go.
-- Main: cmd/server/main.go, from the parsed flags to the exit status.
--
-- Go's int is an integer without its width here: the program only counts readers, bytes and rows
-- with it; the 16 bits of a terminal's size are written out. Instants are numbers. Not modelled:
-- the text form of JSON documents, the scheduler (but for the three modules on locks, an operation
-- under a lock is one step), the HTTP server of the mcp-go library, the generation of the host key,
-- the copying of bytes between a process and its SSH channel, the SFTP subsystem, and what else is
-- logged; all of these are left to Go's runtime and to libraries.
pub mod Prelude
pub mod Strings
pub mod Json
pub mod Api
pub mod Storage
pub mod Messages
pub mod Buffer
pub mod Ansi
pub mod Sessions
pub mod Config
pub mod Mcp
pub mod Ssh
pub mod Main

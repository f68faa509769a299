-- ===== src/Lib.antt =====
-- A verification of the core of eqt, a program that moves files and chat messages between a
-- computer and phones on the local network (README.md).
--
-- The parts and their files. A Go method is a function of the same name in snake case that takes
-- the record for its receiver and returns the new record with its results.
--
-- Base: shared names; the integers with the wrap-around of int64 (Base/Int, Base/Int64), times
--   (Base/Clock), maps keyed by text (Base/Assoc), and float64 arithmetic as a parameter
--   (Base/Float).
-- Bandwidth: pkg/chat/v2/bandwidth, the Scheduler that allots a rate to each transfer
--   (Bandwidth/Limit: RegisterJob, UnregisterJob, LimitForJob) and makes its caller sleep
--   (Bandwidth/Throttle: Throttle; Bandwidth/Pace: the pace that it keeps).
-- Transfer: pkg/chat/v2/transfer, the life of an upload or a download (Transfer/Job: job.go;
--   Transfer/Manager: manager.go; Transfer/Run: sequences of calls).
-- Session: pkg/chat/v2/session, a chat room. Session/Event: the records of
--   pkg/chat/v2/protocol/events.go; Session/Store: message_store.go; Session/History: history.go
--   and replay_seq.go; Session/Room: session.go, in Room/Client (its records), Room/Visible (who
--   sees an event, the broadcasts, the pages of the history), Room/Members (who comes and goes) and
--   Room/Themes (AssignTheme); Session/Room/Queue: the outgoing queue of client.go, as a relation of
--   steps; Session/Registry: manager.go and the attachments.
--   A `*Message` is an address on a heap that the store keeps, so that the events which carry one
--   message share its changes. What a call sends, closes or starts is a list of effects, in order.
-- Quota: pkg/server/chat_limiter.go, the daily allowance of an unpaid user (Quota/Usage: the record,
--   its signature and its anchor; Quota/Load: loadUsageLocked and saveUsageLocked; Quota/Calls: the
--   methods; Quota/Day: the charges of a day; Quota/NetTime: the cache of the network time;
--   Quota/Fetches: its fetches). The file is a usage record or nothing that can be read as one. A call
--   takes a Moment: what it finds of the clock, the network time, the license, the environment and the
--   disk.
-- Server: pkg/server, the names of received files (Server/FileName: getFileName and createUniqueFile
--   of util.go, over a directory as a list of names), the file names in headers (Server/Encode:
--   rfc5987PercentEncode; Server/Sanitize: sanitizeASCIIFilename and the quoting of
--   contentDispositionFor) and the progress counts (Server/Percent: util.go and progress.go).
-- Version: pkg/version/version.go, IsNewerVersion.
-- Dns: cmd/eqt-dns/main.go, the store of the ACME answers (Dns/Store: AcmeStore; Dns/Store/Refines:
--   the function that it implements) and the address in a name (Dns/Address: parseIP, with
--   FormatDirectDomainWithNode of pkg/cert/provisioner.go, which writes such names).
--   Dns/Server: a query with its answer, and isValidACMERecord.
-- Config: pkg/config/resilience.go on the files of a disk (Config/Files: the system calls, each with
--   how it ends as an argument): BackupCorruptConfigFile (Config/Recovery) and AtomicWriteConfigFile
--   (Config/Replace, which keeps the disk as it was after each call).
-- Chat: pkg/server/chat.go, chatSession, the chat that the computer hosts (Chat/Messages: the
--   history, recalls and status snapshots; Chat/Progress: the progress of transfers; Chat/Themes: the
--   themes; Chat/Devices: joining, leaving, forcing offline; Chat/Run: sequences of calls). `removed`
--   lists the files that were removed.
-- License: pkg/server/license.go, the license that lifts the allowance (License/Signatures: the signed
--   texts; License/Memory: the paid status in memory, with SetPaidDetails of chat_limiter.go;
--   License/Local: the certificate's file, its check and reset; License/Online: the sync, from the
--   reply of the server on; License/Activation: the activation). The device's id is that of hardware.go.
-- Share: pkg/server/server.go, the server of one transfer (Share/Progress: how far a client is, by items or
--   as an archive; Share/Clients: who is active, and the limits; Share/Finished: isAllActiveClientsFinished;
--   Share/Devices: the names of the devices; Share/Limit: requests at the same time;
--   Share/Snapshot and Share/Status: the status, its copies, and the calls that change it). `hooked` lists
--   what the hook of the status was called with.
-- Examples: the theorems at concrete inputs.
--
-- The parts meet in the events: a job of Transfer makes the transfer events that a room of Session
-- shows to the clients that may see them, and Bandwidth gives the rate of a job by the policy that
-- the allowance of Quota leads to. The names that Dns/Address writes for a device are the ones that
-- the name server reads.
--
-- Time is an argument, `now`, of each call that reads the clock: all reads of one call see one
-- time. A mutex that a method holds makes the method one step; calls are then a sequence, in any
-- order that the locks allow. Register and its like release the lock between their parts; they are
-- modelled as if no other call came between, but for the registration of a client of a share, whose
-- check and note are steps of their own (Share/Limit: act). The calls of SetClockTampered that the
-- limiter starts on their own are a list, `started`, and run as calls after the one that started them. Logs are left out. A Go map is a list of its entries,
-- in whatever order `range` visits it. int64, int and Duration are integers (ℤ), with wrap-around
-- written out (add64, sub64, mul64, quot64).
--
-- Parameters: float64 arithmetic (Base/Float); strings.TrimSpace, strings.EqualFold, the sorting of
-- the clients and the joining of texts (Room/Client: Host); the prefixes and numbers in the names of
-- the themes, whose random draws are a sequence (Room/Themes: ThemeText); HMAC-SHA256, the printing
-- of numbers and the two layouts of times (Quota/Usage: Host). Whether a write of the file succeeds
-- and whether a reply of the server is signed are inputs of the call. The numbered variants of a file
-- name (Server/FileName: Naming, which differ from one another); filepath.Ext (Server/Sanitize:
-- split); strings.TrimSpace and fmt.Sscanf (Version: TextLibrary); net.ParseIP and strings.ToLower
-- (Dns/Address: NetLibrary); the canonical form of a record name (Dns/Store: canonical;
-- Dns/Server: NameLibrary); the functions on texts of a hosted chat (Chat: TextLibrary), its random tokens and draws; Ed25519, hexadecimal and the
-- layout of times of the certificate (License: Library), and strings.ToUpper; os.Stat, fmt.Sprintf and the
-- version's text (Share). A call on the license takes
-- an Occasion: the Moment with the hashes of the device and what its files give.
--
-- The loops on fuel: load_all (History/Paging), the client that asks for page after page, for which
-- one round more than the messages of the range is enough; getFileName, for which name_fuel is
-- enough; createUniqueFile, for which two rounds more than the directory has files are enough.
--
-- Not modelled: the speeds of the clients of a share, the note of a client by an upload and the making
-- of its device directories, NewClient, the cleanup of uploads, the HTTP requests for the network time, the
-- requests to the license server and the delivery of callbacks, the HTTP and WebSocket handlers, the certificates, the rest of the
-- configuration, the command line and the desktop application, which are for the most part input
-- and output through libraries.
mod Base
pub mod Bandwidth
pub mod Transfer
mod Examples
pub mod Session
pub mod Quota
pub mod Server
pub mod Version
pub mod Dns
pub mod Config
pub mod Chat
pub mod License
pub mod Share

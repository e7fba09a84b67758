-- ===== src/Lib.antt =====
-- Syncer keeps a folder of files equal on the devices of one user, peer to peer. The workspace has
-- the crate syncer-core (crates/syncer-core: paths, manifests, limits, plans, the state database of
-- a folder and its scanner), the crate syncer-agent (crates/syncer-agent: the command line, the
-- server and client between peers), and a desktop app (apps/linux-tauri) that starts the agent. A
-- sync run scans the folder into the table `files` of the state database, exports the table as a
-- manifest, fetches the peer's manifest, plans an action for every path of the two, queues the
-- plan's operations in the table `sync_operations`, and runs the pending transfers.
--
-- This library models syncer-core and most of syncer-agent, file by file:
--   Core/Error: crates/syncer-core/src/error.rs.
--   Core/Manifest: manifest.rs there. `parse` is `RelativePath::parse`, with its loop `normalize` and
--     its last two tests `check_normalized`. Safety and Stability are about what it accepts.
--   Core/Model, Core/Security: model.rs and security.rs.
--   Core/Limits: limits.rs. `plan_transfers` sorts, then loops by `plan_loop` over a `Budget`.
--   Core/Planning: planning.rs. The `BTreeMap`s are the ordered association lists of
--     Prelude/BTreeMap; the set of paths is a map to the unit type.
--   Core/StateDb: state_db.rs. Records has its types, Labels the texts for its enums, Tables the
--     tables as lists of rows, Files the statements that write to `files` and `skipped_files`
--     and Files/Reads the queries, Queue the queries of `sync_operations`, and Queue/Enqueue,
--     Queue/Update and Queue/Resolve what writes to it. The other modules below these have the
--     theorems.
--   Core/Scanner: scanner.rs. `scan_into` walks a tree, which stands for the folder, with the
--     source's stack; Walk has the variables of its loops.
--   Core/FolderStore: folder_store.rs there, on the JSON files of Core/JsonFile: a file is absent,
--     unreadable, malformed or holds a document, and a `Writing` says which step of a write fails. What
--     a failed step leaves behind, and that a document that was written is read back, is laid down in
--     `write_steps` and JsonFile and not derived from laws of std::fs and serde_json.
--   Agent/PathCodec: crates/syncer-agent/src/path_codec.rs, on the bytes that Prelude/Utf8 defines.
--   Agent/RequestSigning: request_signing.rs there, with the numbers of Prelude/Decimal.
--   Agent/PeerCrypto: peer_crypto.rs. `encrypt_chunks` and `decrypt_chunks` are the loops of
--     `encrypt_file_to_path` and `decrypt_file_to_path`; Sealing and Opening have their variables. An
--     `Output` says how the writes of the file end, and what is written stands beside the result.
--   Agent/Profile, Agent/PeerStore: profile.rs and peer_store.rs.
--   Agent/PeerServer: peer_server.rs. Http reads the head of a request from a stream, which is a
--     list of what arrives, and Http/Body the rest; Auth verifies it; Route has `route_request`
--     with one definition for each route, and `handle_stream`, which stores the body of an upload
--     (`spool_files`) before any route is taken; Folder has what the routes do to the folder;
--     Response writes the answer. The module itself has the data and the errors with their codes, and
--     Agent/Manifests the tests on records.
--   Agent/Commands: the commands of main.rs that transfer files. Checks has the tests of an operation
--     against the manifests, Download and Upload have `download_operation` and `upload_operation`, Queue
--     `run_sync_queue` and `build_sync_plan`, Queue/Once `run_sync_once`, Delete `delete_file`.
--   Agent/PeerClient: peer_client.rs, with the address of a peer, the heads of requests, what is made
--     of a response, and in Fetch `fetch_file_to_path` with `copy_exact`. A `Peer` is an argument of the
--     commands, since any peer may answer: it gives what arrives for the request of a file, which the
--     client then checks, copies and decrypts, and, for the other requests, what the client makes of
--     their responses.
--   Agent/Handler has the state that the handlers share, a `Device`: the files below the folder,
--     `.syncer/folder.json`, the list of peers and the database. A `Handler` takes the device before
--     to the device after and a result, and an error keeps what has been done.
--
-- Texts are lists of code points, so lengths in characters and the order of SQLite's and Rust's
-- comparisons are those of the lists. A `RelativePath` is its text. Where the agent compares paths
-- of manifests and responses with `==`, the model compares their components, as camino and
-- std::path do (`same_path` of Prelude/Paths). The maps and sets of the planner and the tables of
-- the database have texts as keys: for the database this is what SQLite does, and for the planner
-- it means that the paths of a manifest are taken to be in the form that `parse` gives, on which
-- equal components are equal texts (Prelude/Paths/Same); the plan's order is that of the texts, not
-- that of camino. A `u64` is a native number: `saturating_add` and its kin stop at 2^64 - 1, sums
-- wrap at 2^64, and conversions to `i64` fail from 2^63 on. The instants of the crate time are
-- numbers. An async method that changes the database is a function from the database before to the
-- one after, with its result beside it where both can occur: the pool has one connection, so the
-- methods run one after the other. The errors of such a method are those of its checks, its
-- conversions and the constraints of the tables; a statement that fails because of the disk or the
-- connection, which `execute(..).await?` would pass on, is left out, so that `mark_scan_started`
-- and other updates without such a check have no error. `unixepoch()` and `Uuid::now_v7()` are
-- arguments. Loops are recursions over the list that they walk. The scanner's loop over its stack
-- has fuel, for which the number of directories is enough (Core/Scanner/Fuel); so have the loops
-- that read a head, for which 16 KiB and one are enough, and a body, for which its length is
-- (Agent/PeerServer/Http/Loops).
--
-- The crates camino, time, uuid, blake3, serde_json and the messages of sqlx are the fields of
-- `Crates`. What a theorem needs of camino is `HasStdPaths`: its paths are those of std::path, which
-- Prelude/Paths writes out as the standard library documents it for Unix. The column types and the
-- CHECK constraints of the tables are the types of the row fields, and a column with an enum's
-- texts holds the enum. Where ORDER BY leaves rows tied, the model has one of the orders.
--
-- The crates that only the agent calls are the fields of `AgentCrates` and, for the server,
-- `ServerCrates`: hex, SHA-256, HMAC, XChaCha20-Poly1305, BLAKE3's key derivation, and the texts of
-- uuids and JSON. `HexRoundTrips`, `VerifiesByComparison` and `HasAead` say what their documentation
-- promises. The file system of the agent is the interface `FileSystem` with the laws `IsPosix`.
--
-- Not modelled: opening the database and its migrations; the accept loop of the server and requests
-- that are handled at the same time; the partial files that a failed decryption, a failed copy or
-- an aborted body leaves; connecting, the client's loop that reads a head and its temporary file of
-- an upload; the command line of the agent with the commands that call one function and print its
-- result, and the apps.
--
-- Examples has concrete devices, folders and queues, on which the results are applied.
pub mod Prelude
pub mod Crates
pub mod Core
pub mod Agent
pub mod Examples

-- ===== src/Lib.antt =====
-- A model of miniraft, a Raft node with a replicated key-value store, and what makes it correct.
--
-- The program. A node keeps one `State` behind a lock: term, log, indexes and a role (follower,
-- candidate or leader; raft/src/state.rs). Threads share it (raft/src/lib.rs, `Engine`): one starts
-- elections, one replicates the log, one handles the messages of peers, and one those of clients. A
-- client's request becomes a command in the leader's log, or is forwarded to the leader. What is
-- committed is applied to a state machine, a map from keys to values, which answers the client.
-- Before an answer goes to a peer, term, vote and log are written to stable storage as JSON
-- (raft/src/persistence.rs, raft/src/serde/mod.rs, json/src). Messages travel as JSON
-- (raft/src/rpc.rs) in envelopes, one on a line (raft/src/maelstrom); base64/src encodes binary
-- data.
--
-- How the model is made. A method that changes its object returns the changed one. A Rust panic is a
-- value of `Outcome` (Prelude/Panics), since it poisons the lock and takes the node down. `Result`
-- is that of Prelude/Results. Sends are lists of receivers and messages. Clock readings and random
-- timeouts are arguments. A hash map is an association list whose order stands for an unspecified
-- one; the map with ordered keys is a list in their order. What other threads do between two locks
-- of one message is an argument, a function on the state. The runs of a node from one boot to the
-- next are the sequences of locked calls in Raft/Progress/Reach. Raft/Progress/Crashes adds the
-- snapshots, the writes that succeed or fail, and crashes: a boot starts from what was last written,
-- and elections and client appends are not written by themselves.
--
-- The files:
--   * Prelude: Boolean tests on numbers, lists measured by native numbers, panics, results, maps.
--   * Raft/Index, Raft/Log: `LogIndex`, `Term`, `LogEntry`, `Log`. Log/Replace and Log/Merge say what
--     `Log::replace_from` computes.
--   * Raft/State: `Common`, `Role`, `State` and the transitions `maybe_step_down`,
--     `maybe_begin_election`, `become_candidate`, `become_follower`. State/Candidacy is on
--     standing for election.
--   * Raft/Replication: `replicate_log`, `become_leader`, `append` (as `append_command`).
--     Replication/Paced is on how often a leader sends.
--   * Raft/Election: `handle_vote_request`, `handle_vote_response`, `won_election`. Election/Votes is
--     on the decision, Election/Tally on counting and Election/Quorum on majorities.
--   * Raft/Commit: `lower_median`, `advance_commit_index`, `advance_state_machine`. Commit/Median,
--     Commit/Quorum and Commit/Applied are on them in turn.
--   * Raft/Append: `handle_append_entries` and `handle_append_entries_response`. Append/Stored and
--     Append/Handler are on a follower, Append/Tracking on what the leader learns, Append/CatchUp on
--     a leader's message and a follower's handler together.
--   * Raft/Progress and Raft/Roles: what every call keeps, and so every run. Progress/Crashes is on
--     runs through crashes.
--   * Persist, Engine: the persistent state, and a turn of `incoming_raft_rpcs_loop`.
--   * Persist/File: `FileMoF` on a file system (`FileSystem`, with the directories that a crash may
--     leave) whose calls may fail as `Calls` says, so that a save cut short by a crash is a save
--     whose next call fails. File/Crash says what a crash leaves, File/Kept what each call keeps of
--     it, File/Writing and File/Flush what the methods keep. File/Atomic, File/Durable and
--     File/Recovery are on a whole save, which is what the loop does in front of its answers.
--   * Rpc, Kv, Proxy: the messages, the key-value machine and its commands, and a turn of
--     `incoming_client_rpcs_loop`.
--   * Json: `Value` and the traits of serialization (Json/Serde). Json/Printer is `Display for Value`,
--     and Json/Parser the streaming parser: its state and errors, and below it numbers, strings and
--     values. Parser/Ends and each Sound and Total are on what a call comes to on any input, and each
--     Reads on known text. Json/Grammar and Json/Valid say which numbers and values are meant.
--     Json/Diff is the difference of two documents, and Diff/Same is on when there is none.
--   * Wire: the serializers and deserializers. Wire/Text and Persist/Storage take them through a text.
--   * Maelstrom: the envelopes, the `Message` enum, and `send`, `read` and `route_incoming` of
--     raft/src/maelstrom/infra.rs, with a turn of the loop in raft/src/main.rs (`receive`).
--     Json/Printer/OneLine is on the bytes of a printed value.
--   * Base64: `encode` and `decode`.
--   * Examples: the theorems at concrete states.
--
-- Bounds. A `u64` is a native number; where the source computes with one, the check against 2 ^ 64
-- is written out, and theorems that need room for one more index say so. Fuel: the loop that applies
-- commands has as many rounds as there are entries between the applied and the commit index; the
-- decimal text of a `u64` has at most twenty digits, and the index in an array that a difference
-- names, an `i32`, has ten; the parser's recursion has two rounds for each byte of its input and two
-- more, and its loops one for each byte and one more, which is shown to be enough.
--
-- Not modelled: diagnostic output, metrics and `State::stats`; sockets (raft/src/http.rs); the random
-- names of temporary files, which are arguments; the programs that wire threads and
-- processes (raft/src/main.rs but for a turn of its loop, raft/src/main-http.rs,
-- raft/src/supervisor.rs); rand and xtask. Whether two texts compare equal as floating-point numbers
-- is an argument of Json/Diff.
pub mod Prelude
pub mod Rpc
pub mod Raft
pub mod Persist
pub mod Kv
pub mod Proxy
pub mod Engine
pub mod Base64
pub mod Json
pub mod Wire
pub mod Maelstrom
pub mod Examples

-- ===== src/Lib.antt =====
-- cargo-remote builds a cargo project on another machine: it copies the sources there, runs cargo
-- through a shell over ssh, and copies artifacts back. This library models the parts of it that
-- decide something, and proves what they are meant to guarantee. Paths below are from the root of
-- the repository.
--
-- The program and the files that model it:
--
-- Rsync (src/rsync.rs): delta transfer. Checksum has block_len_for, rollsum, roll and signature;
-- Wire has sig_to_bytes and sig_from_bytes; Delta has delta as a scan loop on a state record, and
-- Patch has patch. Rolling, RoundTrip, PatchBounds and Divergence hold the proofs.
-- Shell (src/runner.rs): shell_quote, shell_join, quote_remote_path and the checks on what reaches
-- the remote line. Shell/Reader is an independent description of how a POSIX shell splits a line
-- into words; Shell/Quoting reads quoted words with it, and Shell/Entries remote
-- paths and environment entries.
-- Runner (src/runner.rs): the run context and the remote command line, remote_cargo_command. It
-- uses Shell; Runner/CommandLine reads its lines with Shell/Reader.
-- Runner/Version has parse_version and the names of architectures, and Runner/Versions its proofs.
-- Session (src/runner.rs and src/transfer.rs): what a run does, as a list of events, each with the
-- answer that came. Requirements has check_requirements and exec_remote, Installing ensure_agent,
-- Syncing the strategies of Transfer::sync, CopyBack copy_back_binaries, Lockfile
-- apply_remote_lockfile, and Commands build, ext, clean and sync. Emits says how events of parts add
-- up; Asked, Transfers and Fetches use it for each part. Succeeds says what a part has done when it
-- succeeded; Transferred and Returned use it for the transfer and for the products. Traces, Prepared
-- and Builds put both together for whole commands;
-- Checked, DryRun and LockOutcomes hold the other proofs.
-- Progress (src/progress.rs): the line of a transfer, its counters, bar and erasure. Lines has the
-- widths, Plain what the lines are made of, Terminal a row of a terminal, Rows a line drawn over
-- another, and Shown what is on the row.
-- Cli (src/cli.rs) and Config (src/config.rs): options, the layers of configuration and the trust
-- that a project file needs. Cli/Merge and Config/Trust hold the proofs.
-- Project (src/project.rs): the remote name of a project, cargo's subcommands and the profile.
-- Project/SafeName and Project/Profile hold the proofs.
-- Transfer (src/transfer.rs, and the choice in src/main.rs): the strategies and the command lines
-- of a tar transfer.
-- Agent (src/agent.rs): the protocol between the client and the agent on the remote. Frames has
-- write_frame, both ends of read_frame, pack_hdr and unpack_hdr; Paths has resolve_under, excluded,
-- checked_basename and check_sig_size; Plan has the plan of Agent::sync. Framing, Confined,
-- Names, SigSize, PlanCovers and Deletes hold the proofs. Disk is the file system below the agent, an
-- interface with laws that Disk/Memory meets; Storing has write_file_atomic, Messages the headers,
-- Server has apply_put and the loop of serve_sync, Sending what Agent::sync does after the plan, and
-- Fetching what Agent::fetch and serve_fetch do with one file. Atomic, Acts, Arrives, Delivery, Kept,
-- ServedUnder, ServedCalls and Fetched hold the proofs.
-- Launch (src/main.rs): build_context, host_status_lines and the argument that cargo passes. It puts
-- Cli, Config, Project and Runner together; Launch/Targets and Launch/Status hold the proofs.
-- Sshcfg (src/sshcfg.rs): parse_hosts, strict_host_key_setting_in and glob_match, whose loop has a
-- product of the two lengths as fuel. Sshcfg/Hosts and Sshcfg/Globs hold the proofs.
-- Ssh (src/ssh.rs): HostKey has check_server_key, Exec has exec_capture and exec_download, Feeding
-- exec_send with the order of its turns, Auth has authenticate. Accepts, Captures, Downloads, Feeding/Orders
-- and Signing hold the proofs.
-- RunLock (src/main.rs): the lock file of a run, acquire_run_lock_in and the drop of RunLock.
-- Prelude holds what all of them share, with code that changes a state in Prelude/Actions and words
-- and lines of a text in Prelude/Words, and Tests the theorems at concrete inputs.
--
-- Representation. A str is the list of its code points and a byte string the list of its bytes, both
-- over the native natural numbers. u64 arithmetic wraps where the code wraps: `% 2 ^ 64` is written
-- out. anyhow's Result is Result with an error type for each part; `ensure!` is ensure. A loop over a
-- list is structural recursion. The scan of delta has fuel, length of the new file plus two: each
-- round moves on by one byte at least when the block size is positive. patch has the length of the
-- delta as fuel, as a round takes at least one byte of it. The loop of chunks has the length of the
-- data. The square root of block_len_for is taken in 32 binary digits, enough for a 64-bit length.
-- For delta and patch, running out of fuel is a result of its own.
--
-- Parameters. Code that is not in the repository is an argument of the definitions that use it, and
-- what a theorem needs of it is among its hypotheses: the digest BLAKE2b, serde_json as encode and
-- decode, the answers of the server and of the local system to a run (Session), what f64 computes
-- and the clock (Progress), the calls of the file system with their laws (Agent/Disk), the outcome of
-- reading a file, the list of known host keys, the agent of keys and the answers of the ssh server. What a channel
-- gives is a list of messages, and what io.read_frame gives the loop of serve_sync is a list of
-- frames, at whose end the peer is gone.
--
-- Not modelled: the terminal session and the handshake of ssh (src/ssh.rs), the pipeline of tar
-- processes (src/transfer.rs), the report of probe (src/runner.rs), the walk over a file tree, the
-- start of an agent and the loops of fetch over its paths (src/agent.rs), and the dispatch of
-- src/main.rs. What verbose runs and dry runs print is left out. A modification time that the client
-- has read is a natural number; one from the wire may be negative. Where the code takes a lock file,
-- creating it and writing its pid are two steps, between which another run may come; reading and
-- removing it are single steps. The numbers of a header fit the types of its fields where a theorem
-- reads it back. A cell of a terminal holds one character.
pub mod Prelude
pub mod Rsync
pub mod Shell
pub mod Cli
pub mod Config
pub mod Project
pub mod Transfer
pub mod Agent
pub mod Runner
pub mod Session
pub mod Progress
pub mod RunLock
pub mod Launch
pub mod Ssh
pub mod Sshcfg
mod Tests

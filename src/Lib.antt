-- ===== src/Lib.antt =====
-- dotminecraft: a verification library for the Rust crates under crates/.
--
-- The program exposes a Minecraft server under a name `[vanity].[keyid].minecraft` whose keyid is
-- the beginning of the hash of an Ed25519 key. A publisher signs a record that binds its key to
-- its network addresses and puts it into a Kademlia DHT under a key derived from the keyid;
-- whoever connects resolves the name, verifies the records that come back, takes the newest, and
-- opens a tunnel. Storage nodes take in only records whose signer owns the storage key.
--
-- Prelude: shared names, tests on numbers, lists, association lists, results.
-- Core: crates/core/src. Core/Text has the operations of Rust's `str` that the code calls, over
--   lists of code points, and Core/Text/Utf8 its decoding of bytes. Core/Consts and Core/Error
--   are lib.rs and error.rs. Core/Body has the data of record.rs, Core/Crypto the parameters.
--   Core/Name is name.rs, Core/Identity is identity.rs and Core/Record is record.rs, with
--   functions of the same names; their children hold the proofs.
-- Net: crates/net/src. Net/Swarm is the interface to libp2p, a parameter. Net/Behaviour is
--   behaviour.rs and the building of the swarm in `spawn`, over libp2p's builder, Net/Setup what
--   `spawn` then does with it, Net/Setup/Calls the same as a row of calls read off the
--   configuration. Net/Message and Net/Node are the network task of node.rs: `handle_command`,
--   `handle_event`, `handle_kad_result` and `event_loop` take the state of the task and return
--   the new one with the replies that were sent. Net/Node/Register has the abstract view of the
--   record store, Net/Node/Waiters the callers whose answers are due, Net/Handle the calls of
--   `NetHandle`.
-- Proxy: crates/proxy/src/lib.rs. Proxy/Limiter is `RateLimiter`, Proxy/Tunnels the loops of
--   `run_publish` and `run_connect` as a step relation between the loop and its tasks.
-- Cli: crates/cli/src. Cli/Tunnel is tunnel.rs: `resolve` takes the attempts that were made,
--   and `establish` gives its result with the addresses that it dials; the republishing task goes
--   over the rounds that were made. Cli/Tunnel/Sessions has `publish`, `connect` and `relay` up
--   to the loops of the proxy. Cli/Config is config.rs over what stands in the file. Cli/Output
--   is what --json prints. Cli/Commands has the commands of main.rs that join configuration,
--   profile and tunnel, and Cli/Main is `main`, over all commands. Cli/Agent is the control
--   endpoint of agent.rs, over the map of tunnels, Cli/Agent/Lines the reading of a connection,
--   and Cli/Agent/Running the agent with all its connections, as a step relation. Cli/Keystore is
--   keystore.rs, over what is stored for a profile, with `cmd_init` and `cmd_name` of main.rs;
--   Cli/Keystore/Homes has the homes of a machine, over the directories that their paths name,
--   with their entries of the keyring, and Cli/Keystore/OwnerOnly `write_owner_only` for both
--   systems. Cli/Grind is grind.rs, as a step relation between the workers and the reporter. What
--   the operating system and the network answer is an argument of these functions.
-- Tests: runs at concrete inputs, with concrete stand-ins for the parameters.
--
-- Parameters. SHA-256, base32, Ed25519 and CBOR are the functions of the record `Crypto`;
-- `IsSound` states what is documented of them: lengths, alphabet, that a signature is accepted
-- under its own key, that a record within its ranges is read back. Nothing is assumed there on
-- the difficulty of forging a signature or finding a collision: a statement that needs it says
-- what was found instead, and `IsUnforged` of Cli/Tunnel/Secure says it of what came back in the
-- attempts at hand alone. The swarm of libp2p is the record `Swarm`; `KeepsStore` states what its
-- record store does, `IssuesIds` that no query id is given out twice, and `HasRoom` that in a run
-- at hand the store takes what comes as a valid record under the key at hand: libp2p's store
-- refuses a new key once it holds 1024, and never a value of at most 8 KiB under a key that it
-- has. Its builder is the record `Builder`, the operations of f64 are the record `Floats`. The
-- TOML parser is a function to the sections and fields that stand in a text.
--
-- Numbers are natural numbers. The u64 sum that saturates, the u64 cast of a round-trip time and
-- the wrapping counter of grinding are written out; no other sum of the code that is modelled can
-- pass its width for values in range. Nothing is assumed of how the f64 of the rate limiter
-- round, and nothing is proved of the rate that it allows. Loops recurse on the list that they go
-- through. Only the printing of a usize runs on fuel: 20 digits, which are enough since 2^64 is
-- below 10^20.
--
-- Not modelled: the copying of bytes through a tunnel, libp2p's protocols, the expiry of stored
-- records inside libp2p, the parsing of TOML and of the command line, sockets, random generation,
-- the wiping of memory, what is printed for people, logging (`warn_if_exposed` only logs), and
-- the Fabric mod under mod/.
pub mod Prelude
pub mod Core
pub mod Net
pub mod Proxy
pub mod Cli
pub mod Tests

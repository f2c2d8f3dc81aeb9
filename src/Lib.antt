-- ===== src/Lib.antt =====
-- spvwallet: models of an SPV client for Bitcoin, and theorems about them.
--
-- The program follows the chain of block headers. The package netserv connects to peers and asks them
-- for headers and blocks, one message after another; the package chain checks and stores the headers,
-- and the rest of the program asks it for the best header or for a header by hash or height. The
-- package alliance reads proofs of Bitcoin transactions from the events of another chain, checks them
-- against the block headers, votes for those that pass, keeps those that still need confirmations in a
-- database, from which each new height sends them to the vote again, and signs transactions. The
-- wallet ties the peers, the service and the blockchain together, a watcher restarts a sync that stands
-- still, and a REST service answers requests.
--
-- Parts and files:
--   Chain/Types: the data of chain/, and btcd as the parameter Btcd with its documented laws BtcdLaws.
--   Chain/Codec: serializeHeader and deserializeHeader (chain/headers.go), on lists of bytes.
--   Chain/Cache: HeaderCache (chain/headers.go) over an insertion-ordered map.
--   Chain/HeaderDb: HeaderDB (chain/headers.go). Its state is the best header in memory, the cache, the
--     two buckets of the bolt file, and `pending`: what the goroutines started by Put have still to
--     write. `run_pending` lets any one of them write. Chain/HeaderDb/Held says what a database holds;
--     Chain/HeaderDb/Synchronous has `put`, which writes at once.
--   Chain/Headers: the interface Headers (chain/headers.go), with the laws that the blockchain needs.
--     Chain/HeaderDb/Interface is HeaderDB as such an implementation.
--   Chain/Difficulty: checkProofOfWork and calcDiffAdjust (chain/blockchain.go).
--   Chain/Checkpoints: the tables and GetCheckpoint (chain/checkpoints.go).
--   Chain/Blockchain: NewBlockchain, CommitHeader, CheckHeader, calcRequiredWork, GetEpoch,
--     GetBlockLocator, GetNPrevBlockHashes, GetCommonAncestor, Rollback (chain/blockchain.go), over any
--     implementation of Headers.
--   Chain/Session: the steps of a running blockchain over HeaderDB, and what can be reached.
--   Alliance/Types: the data of alliance/, and what it calls of btcd, bchd and the alliance chain's
--     libraries as the parameter Outside.
--   Alliance/WaitingDb: WaitingDB (alliance/db.go), over bolt buckets; Alliance/WaitingDb/Ledger is what
--     it promises, as a function from transactions to proofs and a function from transactions to votes.
--   Alliance/Voter: verify, checkTxOuts, the rounds of Vote and WaitingRetry (alliance/voter.go), and
--     ifCanResolve (alliance/utils.go). It asks the blockchain for the best header and for the header
--     at the height of a proof.
--   Alliance/Observer: checkEvents and the ticks of Listen (alliance/alliaob.go), and the checkpoints
--     (alliance/checkpoint.go).
--   Alliance/Signer: getSigs and the rounds of Signing (alliance/signer.go).
--   Alliance/Setup: GetAccountByPassword (alliance/utils.go) and NewSigner (alliance/signer.go).
--   Alliance/Session: the goroutines of the package over one database, as one system of steps.
--   Config: the file of config/config.go.
--   Netserv/Types: inventories and the states of peers (netserv/wireserv.go), the messages sent to peers
--     as a list, and btcd's peers as the parameter PeerLib.
--   Netserv/Wire: WireService (netserv/wireserv.go) over any blockchain: its state, Current, startSync;
--     Netserv/Wire/Handlers and Netserv/Wire/Blocks hold its handlers. Netserv/Wire/Session has the
--     steps of a running service over HeaderDB, and Netserv/Serving the loop of Start.
--   Netserv/Manager: PeerManager (netserv/peers.go), over btcd's address manager as the parameter
--     AddrLib. What it draws at random is in the state of that parameter. Netserv/Manager/Seeds has how
--     it gets more addresses.
--   Wallet: SPVWallet (wallet.go), whose blockchain is that of its service, and the choice of the
--     network (cmd/run.go).
--   Wallet/Watcher: resyncSpv (cmd/run.go), a round for each time the timer fires.
--   Rest/Json: encoding/json as a parameter that takes the tags of fields as arguments. Rest/Service: the
--     handlers of rest/service/handlers.go, with ParseParams (rest/utils/utils.go) and the tags of
--     rest/http/common/common.go, over the parameter Parsers. Rest/Server: the routes and the answer to a
--     request (rest/http/restful/router.go and restful_server.go). Rest/Client: the client
--     (rest/http/restful/rest_client.go), with its own tags, over the parameter ClientLib.
--     Rest/Client/Served takes its answers from the server, by what json documents (JsonLaws).
--   Start: run with startSpv, startServer and startAllianceService (cmd/run.go), up to the state in which
--     each part begins.
--   Program: the wallet, the peers, the watcher and the REST service as one system of steps.
--   Prelude: shared names, Boolean tests, the type Result of an operation (a value, an error, a panic,
--     or a run out of fuel), the integers, and the interfaces of bolt and of the ordered map.
--   Tests: instances of the interfaces, runs, and the theorems at concrete inputs.
--
-- Integers: a uint32 keeps its wrap-around written out; total work is a natural number, as big.Int is
-- for the sums of work; a hash is a number below 2 ^ 256; a timestamp counts seconds, as on the wire,
-- and durations count nanoseconds.
--
-- Fuel: `walk_down` and `meet` get one round more than the height of the header they start from;
-- `last_regular` likewise. Where each header stands one above its parent, a round goes down by one
-- height, so that this is enough. The loops of Rollback (1,000,000,000 rounds), GetEpoch, GetBlockLocator
-- and GetNPrevBlockHashes have their bounds in the source. A tick of the observer at the largest uint32
-- is a run without end in the source and out of fuel here. In Alliance/Session a round of a goroutine is
-- one step: a tick of the observer writes the database only at its end, and only the height.
--
-- The time that a handler reads is a parameter, and stands still while the handler runs. A map of peers
-- is a list, whose order stands for the order of a range over the map; the steps of the service may
-- change it at any time.
--
-- Not modelled: the network itself, with the connections of btcd, the lookup through Tor
-- (netserv/tor.go), the HTTP server, and the regular expressions of its router, whose patterns are the
-- paths themselves; flags and the home
-- directory (config.go), and the log (log/). Locks are not modelled, since each
-- operation runs under one; failures of the disk are not modelled either, and neither is that a full
-- channel blocks: `updates`, `voting`, `signing`, `txchan` and `sent` list all that was sent.
pub mod Prelude
pub mod Chain
pub mod Alliance
pub mod Netserv
pub mod Config
pub mod Wallet
pub mod Rest
pub mod Program
pub mod Start
mod Tests

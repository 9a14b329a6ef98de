-- ===== src/Lib.antt =====
-- A verification library for Nuvex, a layer-1 blockchain node written in Go (app and x/nvx).
--
-- The program. A node (app/app.go) keeps the accounts (x/nvx/keeper/state.go), a chain of blocks
-- (blockchain.go) and a pool of transactions that wait for a block (mempool.go). Rounds of votes
-- (consensus_bft.go) turn what waits into blocks; a second, stake-weighted engine (consensus.go)
-- counts what a block burns (burn.go) and mines (mining.go). Holders of coins vote on proposals
-- (governance.go) and stake coins (staking.go); a DEX (dex.go) keeps pools of two
-- tokens. Nodes exchange messages (p2p.go). Beside the state in a JSON file there is one in
-- LevelDB (state_leveldb.go), keys and signatures of wallets (crypto.go), and contracts that
-- go-ethereum runs (evm.go, evm_v2.go). An HTTP interface (app/api.go) calls the
-- keepers. These share state by pointers: the consensus writes to the chain and takes from the
-- pool, and governance and staking move funds in the accounts.
--
-- The files, and the code they are about (in x/nvx/keeper where no path is given):
--   Base             shared names; Base/Word int64 and uint64; Base/Outcomes how a call ends;
--                    Base/Lists, Base/Recent lists; Base/Tests Boolean tests; Base/Float float64;
--                    Base/Digits the digits of a number
--   Dict             Go's maps as association lists
--   Host             what is taken from Go's standard library
--   Types            x/nvx/types/constants.go
--   Signature        signature.go: HashPayload, VerifySignature, AddressFromPublicKey
--   State            state.go: State/Accounts the data and the writes to an account, State/Keeper
--                    the operations (SignedTransfer is authorize, then execute_signed); theorems in
--                    Balances, Conservation, Authorization, Abuse, Storage, Genesis
--   Blockchain       blockchain.go: Block (calculateHash, calculateStateRoot), Lines (splitLines),
--                    Chain (the operations and the file); theorems in Validity, Lookup, Storage
--   Burn             burn.go; theorems in Burn/Supply
--   Mining           mining.go; theorems in Mining/Cap and Mining/Schedule; Mining/Events the
--                    table of halvings
--   Mempool          mempool.go; theorems in Mempool/Size and Mempool/Selection
--                    (by Removal)
--   Consensus        consensus.go; theorems in Consensus/Leader
--   Bft              consensus_bft.go: the data, the leader and the proposed block; Bft/Rounds what
--                    is done under the lock, Bft/Threads the threads and the steps of a node; theorems
--                    in Steps, Soundness and Abuse (by Finality and Tasks)
--   Governance       governance.go: proposals and votes; Governance/Closing the end of a vote;
--                    theorems in Ballot, Tally and Closed
--   Staking          staking.go; theorems in Staking/Payout
--   Dex              dex.go; Dex/Stats its statistics; theorems in Dex/Quote
--   P2p              p2p.go: the node and what it sends; P2p/Scan how a message is read, P2p/Handlers
--                    what a connection does, P2p/Steps the events; theorems in Bounds
--                    (by Preservation) and Scan
--   LevelDb          state_leveldb.go: the cache, the keys and the lock; LevelDb/Transfer TransferLDB;
--                    theorems in Locks (sequences of calls) and RoundTrip
--   Crypto           crypto.go: the curve; Crypto/Keys keys and texts, Crypto/Ecdsa the nonce, signing
--                    and verifying; theorems in Multiples, Encoding, Modular, Completeness
--   Evm              evm.go: deployments and calls; Evm/Queries the queries and evm_v2.go; theorems in
--                    Counts (the counter of calls) and Gas (the estimate)
--   Api              app/api.go: the whole node and the replies; Api/Writes the handlers that change
--                    it, Api/Reads the others, Api/Serve the choice of the handler; theorems in
--                    Access, Unsigned and Refused, by Refusals (the keepers) and Errors (the handlers)
--   App              app/app.go and app/genesis.go; theorems in App/Supply
--   */Tests          runs, and each theorem at a concrete input
--
-- How the code is represented. An int64 or a uint64 is its bit pattern, a number below 2^64, and the
-- arithmetic wraps around as in Go; conversions between the two change nothing. An operation returns
-- the state that it leaves behind with its outcome: a value, an error or a panic, since what was
-- written stays written. The panics of index and slice expressions are modelled, also those in the
-- arguments of a log line; the text that is logged is not. A Go map is an association list, and the
-- theorems hold for every order of it. A reading of the clock is an argument, as a count of
-- nanoseconds or as the text that is stored.
--
-- Parameters. Hashing, hexadecimal and decimal text, bytes and the ECDSA check are the record Host;
-- encoding/json and the files are the records Disk and BlockDisk; sort.Slice is a function; float64
-- is the record Float; JSON on the wire is the record Wire; LevelDB is the record Database, with Codec
-- for its values; go-ethereum is the record Ethereum; the reading of numbers in a path is the
-- record Numerals; HMAC is a function, and the curve's numbers are the record Curve. Theorems that
-- rely on their behaviour say so in a hypothesis.
--
-- Concurrency. The keepers hold a lock through each operation, so an operation is one step. What the
-- BFT consensus does between two locks is separate steps (Bft/Threads: Event, step, run): a thread
-- that frees the lock before it is done is a Task that goes on later, and the theorems on run hold for
-- every order of rounds, votes, threads and time-outs. App runs StartRound as one step.
--
-- Handlers of connections are events of one node (P2p/Steps), in any order. In LevelDb the state of
-- the lock is part of the state, and a call that would wait for its own thread is blocked.
--
-- Loops. Every loop is a recursion on the list that it goes through or on its count, or on the digits
-- of a number, which are found by recursion on Acc; no fuel is used. The loops that never end
-- (cleanupRoutine, processLoop, rewardLoop, pingRoutine, syncRoutine, handlePeer, and Run of the BFT
-- consensus) are modelled by one round of them.
--
-- Not modelled: sockets, time-outs and the encoding of what is sent; the start and the loop of the node
-- (App) leave out the DEX, staking, the EVM and the peer-to-peer network, which the node of Api holds;
-- the texts of the ABIs and the calls that only encode for the EVM; the Solidity contract, the web
-- pages, and the printed statistics in floating point.
pub mod Api
pub mod App
pub mod Base
pub mod Bft
pub mod Blockchain
pub mod Burn
pub mod Consensus
pub mod Crypto
pub mod Dex
pub mod Dict
pub mod Evm
pub mod Governance
pub mod Host
pub mod LevelDb
pub mod Mempool
pub mod Mining
pub mod P2p
pub mod Signature
pub mod Staking
pub mod State
pub mod Types

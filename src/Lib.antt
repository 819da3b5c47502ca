-- ===== src/Lib.antt =====
-- The Executable Consensus Network: a set of nodes executes every transaction on its own copy of a
-- state, and agrees on the hash of the result.
--
-- How the parts interact. A transaction is dispatched by type to a handler of the engine, which
-- gives the new state or an exception. Each node keeps a state manager, which executes, hashes the
-- state, and records the step in a trace. A node reports the hash, corrupted if it is malicious, and
-- signs it if it has a key. The network sends a transaction to each node in turn, runs one consensus
-- round on the results, and enters the round in its history and in the audit log. The peer-to-peer
-- network does the same with a server for each node: a server that does not answer, or answers with
-- an error, is a failure in the health registry, and one with too many failures is not asked again.
-- The HTTP interface takes a submitted transaction through the states of its record: it runs the
-- round over the peer-to-peer network, saves the record, bills the round, sends it to the webhooks
-- that ask for it and publishes it on the event bus. A tenant has a network of its own and shares
-- the billing. The stores of transactions, events, keys and counters are read again after a restart.
--
-- The files, each with its children, and the code that they model:
--   World, Engine: ecn/execution_engine.py, with the keys of states and transactions.
--   SupplyChain: ecn/use_cases/supply_chain.py. Its children say what a handler may do to a product.
--   Execution: the engine with the handlers of both files, as a running network has it.
--   Merkle, StateManager: ecn/state_manager.py.
--   Consensus: ecn/consensus.py. Votes is the count and the winner, Outcome the report, Quorum what
--   a quorum guarantees.
--   Crypto: ecn/crypto.py. Tampered is about a round with a result that was changed.
--   Audit: ecn/audit.py.
--   Node: ecn/node.py.
--   Network: ecn/network.py. Rounds follows the nodes of a broadcast, Agreement the whole of it.
--   Lifecycle: ecn/transaction.py.
--   Health: ecn/node_health.py.
--   Stream: ecn/stream.py.
--   Auth: ecn/auth.py. Access is about keys and requests, Token about bearer tokens,
--   Admin the routes of ecn/api.py on keys, and Issued the life of a key under them.
--   NodeServer: ecn/node_server.py, a server with its node, and what it answers.
--   P2p: ecn/p2p_network.py, with the registry of ecn/node_health.py. Rounds follows a broadcast,
--   Exclusion the excluded nodes, Outage and Blackout the nodes that fail in every round.
--   Billing: ecn/billing.py. Ledger is about the entries, Totals about counters and sums.
--   Persistence: ecn/persistence.py with the code that reads the stores back. Usage has the counters,
--   in memory and durable, and the interface that Billing takes them through; Periods compares the
--   two. Transactions is the store of ecn/api.py, Events that of ecn/audit.py, Keys that of
--   ecn/auth.py with Reopened about a restart, and Schema the migrations. Json has the values that
--   go through the JSON library, and EventJson the dictionary of an audit event.
--   Webhooks: the subscriptions of ecn/api.py.
--   Api: the submission of a transaction of ecn/api.py. Submit and Replicated are about one that fails
--   and one that succeeds; Queries has the routes that read.
--   Tenants: ecn/tenant.py, with Isolation.
--   Common: what the files share. Results with exceptions, integers, texts in the order of Python,
--   dictionaries as lists of pairs in the order of insertion, and bounded queues.
--   Samples: toy parameters and data for the tests. The files called Tests hold runs and the
--   theorems at concrete inputs.
--
-- Conventions. Functions bear the names of the source without the leading underscore. A method that
-- changes an object takes it and returns the new one. An exception is a value of a result type, with
-- a constructor for each message. A dictionary key that may be missing is an option. Python's
-- integers are integers without bound, and counts are natural numbers. The clock, fresh identifiers,
-- floats, digests, signatures and the texts that JSON prints come from outside the repository: they
-- are parameters, and what a theorem needs of them is a hypothesis of it, such as that a digest has
-- 64 characters.
--
-- Bounds and fuel. The only loop that is not structural is `while len(level) > 1` of
-- `build_merkle_tree`: its fuel is the number of leaves, and Merkle.Shape shows that a level is
-- about half as long as the one below it, so that the fuel suffices. Printing a number takes its
-- value as fuel, which bounds its digits.
--
-- Not modelled: the sockets and threads of ecn/node_server.py and ecn/p2p_network.py, where the
-- requests of a broadcast go out one by one and an attempt is unreachable, lost or answered by a
-- parameter; the routes of ecn/api.py that list, and those of ecn/tenant.py for webhooks and audit
-- events, which hand on what the modelled parts return; the Stripe handler of
-- ecn/billing.py and the coroutine of ecn/stream.py, which format messages; the choice of the stores
-- by an environment variable; and the client, the dashboard, the demonstrations, the deployment
-- files and the clients in other languages, which are input and output.
pub mod Tenants
pub mod Api
pub mod Webhooks
pub mod Billing
pub mod Persistence
pub mod NodeServer
pub mod P2p
pub mod Common
pub mod World
pub mod Engine
pub mod SupplyChain
pub mod Execution
pub mod Merkle
pub mod StateManager
pub mod Consensus
pub mod Crypto
pub mod Audit
pub mod Node
pub mod Network
pub mod Samples
pub mod Lifecycle
pub mod Health
pub mod Stream
pub mod Auth

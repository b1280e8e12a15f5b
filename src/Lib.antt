-- ===== src/Lib.antt =====
-- A verification library for the shutter test tools: programs that send transactions, encrypted
-- through the Shutter sequencer contract or plain, and report whether and where they were included.
--
-- The program. `main.go` picks a mode. The continuous test (`continuous/`) waits for blocks of
-- validators that take part in Shutter. For each one it checks the transactions that are in flight
-- and sends a new one, which a goroutine of its own then follows. From time to time it analyses a
-- range of blocks: it pairs what was submitted to the sequencer contract with what was included,
-- and looks up whom to blame for the rest. The stress tests (`stress/`) send a batch of encrypted
-- transactions at once and wait until all are included. `utils/` holds what the tests share.
--
-- The files.
--   Prelude: the names that all modules share. Int, Words and Text are Go's integers and strings:
--     big.Int and int64 are integers, uint64 wraps at 2^64. Outcomes is how a Go call ends: with a
--     value, with an error, or with a panic. Runs are calls that also change a state.
--   Chain: transactions and receipts, and the operations of go-ethereum and of the Shutter library
--     as a parameter.
--   Utils: utils/utils.go. Prefix is PrefixFromBlockNumber and BlockNumberFromPrefix, Account is
--     Account with UseNonce, Opts and Sign, Gas the fee functions, Wait WaitForTxSubscribe, Eon
--     ComputeIdentity and GetEonKey, and Difference has the name of its function. Repair is
--     FixNonce and Drain, with the readers of arguments and of the environment, PkFile is
--     StoreAccount and ReadPks, Contracts SetupContracts, and Receipts CountAndLog, the waits on
--     bind.WaitMined and CreateRandomAddress.
--   Continuous: continuous/tx.go, continuous/continuous.go and NextAccount of continuous/config.go.
--     Tx is ShutterTx and its statuses, Blocks the polling for blocks (QueryAllShutterBlocks and
--     the queries that it calls), Status the lists with AddTxInFlight, TxCount and CheckTxInFlight,
--     Watch the goroutine WatchTx, Forfeit is forfeitNonce, Send SendShutterizedTX. System puts the
--     main loop and the goroutines together, Running adds the accounts whose nonces a run uses up,
--     RunLoop is runContinuous of main.go with its times, Accounts continuous/account.go and
--     loadGraffitiJSON. Configure is createConfiguration, with its reads of the environment in
--     Settings and what it leaves behind in Machine, Connection is GetConnection of
--     continuous/db.go, and Listing the texts of PrintAllTx.
--   Collector: continuous/collector.go. Cache is BlockCache and collectSubmitIncomingTx, Events
--     collectSequencerEvents, Pairing the two loops of CollectContinuousTestStats, Ratios
--     queryStatusRatios and buildInnerTxHashToTargetSlotMap, Credentials
--     withdrawAddressForPublicKey, Blame blameValidator and its queries, Stats queryBlockTriggers
--     and CollectContinuousTestStats as a whole, Prime PrimeBlockCache on a list of heads. Heads is
--     WatchHeads and PrimeBlockCache as goroutines on a channel, beside the main loop's passes over
--     the blocks, Printing the texts of blames, and
--     RunCollector is runCollector of main.go.
--   Plain: the plain tests. Config is config/config.go, Requests requests/, SendWait
--     tests/sendwaittx.go, Modes main.go and tests/sendtx.go.
--   Stress: stress/stress_test.go. World is StressSetup and StressEnvironment with what a test leaves
--     behind, Transact is transact with encrypt and submitEncryptedTx, Connect and Setup createSetup
--     and fund, Environment createStressEnvironment. Limit has the gas limits and the constraint of
--     TestStressExceedEncryptedGasLimit, Cases the tests that call transact, and Housekeeping the loop
--     of TestEmptyAccounts. Submits, Signing, Batches and Sent are lemmas on the loops, and Whole,
--     Stored, Exceeds, Spread and Duplicate are about what the tests leave behind.
--   The modules whose names end in Examples, with the data of Samples, run the definitions on small
--     inputs.
--
-- State and interleaving. A transaction is shared by pointer between the lists of the status and
-- its goroutine, so the lists hold numbers, pointers into a store. WatchTx is cut at the three
-- places where it blocks. A step of System is what runs between two such places, or one call of the
-- main loop, and the steps come in any order; what the clients answer is left open. CheckTxInFlight
-- is one step, so the reads that it makes of a transaction while its goroutine writes to it are not
-- taken apart: the source does not guard those fields with its mutex. The order in which the calls
-- of SendShutterizedTX reach the node is that of the source; what they answer is a parameter.
-- In Heads the passes that fill the cache interleave block by block, and each step is answered anew:
-- the lookup of a block, with its fetch and the queries for its transactions, is one step, and storing
-- what was found is the next.
--
-- Bounds. The loop over blocks runs as often as the range is long, for an end below the greatest
-- uint64. Waiting and polling never end by themselves: they run on the list of events or answers
-- that they are given. The digits of a number are written with the number itself as fuel, one more
-- than is needed. Nothing else needs fuel.
--
-- Files and steps that fail. createConfiguration changes the file pk.hex and sends transactions
-- before it can still fail, so its steps return the file and the transactions beside their outcome.
-- A stress test works on a World, which stays as the failing step has left it; what it draws at
-- random and what WaitMined answers are parameters, by how often they were asked for before.
-- The environment, the other files, the node and the keys that are generated are parameters. The file
-- is ASCII text; a write that fails leaves nothing behind.
--
-- Not modelled: the SQL queries themselves, whose rows are a parameter; logging and
-- EnableExtLoggingFile; the generated bindings of utils/deposit_contract.go; TestInception and the
-- verdicts of the stress tests, with their two gas price functions that nothing uses; and the
-- scripts in continuous/ and plot/. A read of the database that fails inside `Scan` leaves
-- variables as they are, which a list of rows as they are scanned stands for. A panic of a String
-- method is printed without the bounds of a slice.
pub mod Prelude
pub mod Chain
pub mod Utils
pub mod Continuous
pub mod Collector
pub mod Plain
pub mod Stress

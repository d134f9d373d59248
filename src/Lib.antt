-- ===== src/Lib.antt =====
-- Verification of the terra worker, which fetches blocks and transactions from a Terra node, turns
-- them into the records of the indexer and streams them to a manager.
--
-- The program's parts, from the outside in:
--
-- * cmd/terra-worker starts the worker. `Worker.Command` is `initConfig`, `FromFile`, `FromEnv`,
--   and what `main` makes of the configuration up to the managers' addresses; `Worker.Logger` is
--   `Init`, `SetLevel` and `getLevel` of cmd/common/logger/logger.go with the handler of
--   /loglevel.
--   `Worker.Servers` is the loop of `main` that waits for the servers and for signals.
-- * client/client.go answers the manager's tasks. `Client.Streams` has `RegisterStream`,
--   `CloseStream` and the loop of `Run`, whose goroutines take the tasks of a stream, as a step
--   relation, and `Client.Tasks` the dispatch in `Run`. `Client.Accounts` has the handlers for
--   rewards, balances and delegations, `Client.Transactions` is `GetTransactions`, and
--   `Client.Latest` is `GetLatest`. Both of these cut a range of heights into pages
--   (`Client.Paging`), fetch their blocks and search for the blocks' transactions
--   (`Client.Ranges`); `Client.Heights` is `getStartingHeight`, with its uint64 arithmetic.
--   `Client.Range` is `getRangeSingular`: once the blocks of a range are there, its loop over
--   them, its five searchers and its converter are a step relation (`Client.Pipeline`), with both
--   channels between them and their capacities. `Client.Transactions.Received` is the whole
--   request for a range, from the fetches of the blocks to what the manager receives.
-- * `sendResp` of client/client.go runs beside a handler: it receives the responses that the
--   handler puts into a channel and sends them to the manager. `Client.Stream` has the two as a
--   step relation, and `send_resp`, the list that is sent when nothing cancels the task; handlers
--   whose channel is filled and closed before `sendResp` is called use `send_resp`.
-- * api/block.go fetches the metadata of a range of blocks. Several fetches run at once and
--   gather their blocks in one map under a lock. `Api.Blocks` models the map, one round of the
--   decoders' loops, both decoders and `GetBlocksMeta`; since the lock is held for the whole of
--   an answer, a run of several fetches is a sequence of such additions.
-- * api/reward.go, api/account_balance.go and api/delegations.go ask for what belongs to an
--   account, with up to three attempts: `Api.Requests` is the loop that they share,
--   `Api.Rewards`, `Api.Balances` and `Api.Delegations` are `GetReward`, `GetAccountBalance` and
--   `GetAccountDelegations`, and `Api.Amounts` is `gettIntAndExp`, which reads the amounts as
--   decimal texts.
-- * api/transaction.go searches for transactions and turns them into events. `Api.Search` has
--   `SearchTx`, `SearchTxSingularHeight` and `SingularHeightWorker`; `Api.Transactions` has
--   `rawToTransaction`, the two loops around it and the two functions of the plugin.
--   `Api.Dispatch` is `getSubEvent`, the switch over the route and the type of a message, one
--   function per route; a message of "msgauth" holds messages, so the function is recursive.
--   `Api.Events` is `findLog`, `eventFromLogs` and `appendEvents`, which looks up the log of each
--   message, maps the message, and then adds the logs that no event stands for.
-- * api/mapper/*.go has one function for each type of message. `Mapper.Bank` has the regular
--   expression for amounts, `getCoin`, `produceTransfers` and the mappers of bank.go; the other
--   modules of `Mapper` are named after the other files, and `Mapper.Single` has those of
--   crisis.go, evidence.go and slashing.go.
-- * api/types/*.go has the answers of the node: `Api.Types`, the block metadata in `Api.Blocks`,
--   and in `Api.Types.Attributes` the decoding of attributes, from the objects that the JSON
--   decoder reads. `Structs` has the indexer's own records, with the fields that are used here.
--
-- How the code is written here:
--
-- * A call that can fail has an `Outcome`: a value, an error or a panic (`Go.Outcome`). The value
--   that Go returns beside an error is kept only where the caller uses it. The texts of errors
--   are shortened to their constant part where nothing reads them.
-- * A nil slice and an empty one are both the empty list, and so for maps; a nil pointer is
--   `none` where the code distinguishes it. Maps are association lists (`Go.Map`), the map of
--   blocks is a function.
-- * Machine integers are natural numbers with the wrap-around written out (`% 2 ^ 64`, `% 2 ^
--   32`). The index of a log is a float64: a whole number below 2^53, or any other value by its
--   text. `Go.Float` has float64 where the code computes with it: conversion, division and
--   math.Ceil, rounded as IEEE 754 does.
-- * `Go.Text` has the functions of package strings, strconv and math/big that are used, on bytes
--   in the range of ASCII.
-- * The functions that are not of this repository are parameters: `External` has the encoding of
--   addresses and the value that a failed big.Int.SetString leaves, which Go does not define;
--   `Api.Blocks.Node`, `Api.Requests.Lcd` and `Api.Search.SearchNode` have the requests to the
--   node and the JSON decoder, an attempt being a timeout, another failure or an answer;
--   `Api.Transactions.Codec` has the decoders of transactions and logs, `Client.Accounts.Json`
--   the payloads of tasks and responses, `Worker.Logger.Zap` the levels and the builder of zap,
--   `Worker.Command.Sources` the file and the environment. The messages of the Cosmos and Terra
--   packages are records of what their methods return (`Mapper.Messages`).
-- * What runs beside the code modelled is an argument where the code reads it:
--   `Client.Latest.Reads` has what the loop of `GetLatest` reads of a map that its fetches
--   change. The fetches of a range are a list: in `Client.Range` any order of the pages, that in
--   which they take the lock or, where they fail, in which their errors are received; in
--   `Client.Latest` the order in which the loop starts them, which is one of those that can
--   happen. The order in which Go walks a map is a list of its entries.
-- * In `Client.Pipeline` a panic has no step, so what it shows of runs is for searches and
--   conversions that return or fail; and a send into `out` returns, as it does as long as
--   sendResp receives. `Client.Stream` has the channel `out` with its capacity, and the handler
--   that waits at it.
-- * The loops over pages run on fuel. A page takes one round and holds at least one height, so as
--   many rounds as there are heights are enough. All other loops and the recursion into a
--   message's messages are structural.
--
-- Not modelled: logging, metrics and the pauses between attempts, which nothing reads; the HTTP
-- transport, JSON and amino decoding, which other packages do; the profiling of the worker command
-- and what builds its servers from the configuration; the plugin's main, which passes two functions
-- of the api package on.
pub mod Prelude
pub mod Go
pub mod Structs
pub mod External
pub mod Api
pub mod Mapper
pub mod Client
pub mod Worker

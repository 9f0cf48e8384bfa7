-- ===== src/Lib.antt =====
-- A bot that watches BNB Smart Chain for the launchpad four.meme and trades on it.
--
-- The parts and how they interact. The program polls for new blocks (parser/block_parser.go) and
-- subscribes to logs (parser/listener.go). A receipt goes through the list of handlers of
-- parser/handlerV2.go; a subscribed log goes to HandleEvent (parser/handler.go), which saves a record
-- and may start a buy. Buy and Sell (trade/buy_sell.go) ask the helper contract for the token's
-- status and trade with a manager contract (trade/primary.go, trade/internal_market); after the
-- launchpad, trades go to the router of PancakeSwap (trade/secondary.go). A confirmed buy opens a
-- position (manager/position_manager.go) and leaves a record (database/repository.go).
--
-- The files and the code they model:
--   Config               config/constants.go: addresses and topics as numbers
--   Entity               entity: the records that the parts share, and go-ethereum's values
--   World                the state of the process, the trace of requests, the outside as `Env`
--   Base                 lists, text, decimal prints and signed integers
--   Utils/Words          utils/log_data.go, SplitDataToWords
--   Utils/Seq            utils/db_utils.go, CalcTxUniqueSeq
--   Utils/Pool           utils/concurrency_utils.go, WorkerPool; Utils/Pool/Tasks runs tasks on it
--   Utils/Math           utils/math_utils.go
--   Database             database/repository.go, SaveTxRecord and SaveTransaction
--   Manager/Positions    manager/position_manager.go, a map of pointers into a memory of cells
--   Manager/Tokens       manager/token_cache_manager.go, over any cache
--   Client/Fourmeme      client/fourmeme_client.go, GetTokenStatus and LocalCalcMinAmountOut
--   Client/Price         client/price_client.go, the price cache
--   Client/Approve       client/erc20_client.go, Approve
--   Trade/Submit         what the trades share: nonce, gas price, signature, sending
--   Trade/Internal       trade/internal_market/v2 and v3: buys and sales with the managers
--   Trade/Estimate       trade/internal_market/v3, TryBuy and TrySell
--   Trade/Positions      trade/trade_utils.go
--   Trade/Primary        trade/primary.go and trade/buy_sell.go
--   Trade/Secondary      trade/secondary.go
--   Trade/Whitelist      trade/whitelist_checker_handler.go
--   Parser/Blocks        parser/block_parser.go and parser/handlerV2.go
--   Parser/Trades        parser/fourmeme/buy_handler.go, sell_handler.go and common.go
--   Parser/Create        parser/fourmeme/create_handler.go
--   Parser/Events        parser/handler.go
--   Parser/Native        parser/native/transfer_handler.go
--   Tests                a friendly node, and the theorems at concrete inputs
-- A module `Laws` beside a component holds its theorems. A function keeps the name of the source's
-- in lower case: `PrimaryBuy` is `primary_buy`.
--
-- How code is modelled. A function that asks the node, the database or the web is a function of the
-- monad `M`: it takes the `World` and gives a value, an error or a panic, with the world after it.
-- Each request is an entry of the trace, and `Env` answers it as a function of the trace, so the
-- same request may be answered differently the next time. Packing, unpacking, signing, the clock and
-- the operations of big.Float and float64 are fields of `Env` without any law. Addresses and hashes
-- are numbers, text is a list of bytes, a nil pointer is `none`, times are in seconds. `HexToAddress`
-- of the constants is their number. An error of `fmt.Errorf` is known by its title.
--
-- Bounds and fuel. SplitDataToWords has as much fuel as bytes: each round takes one at least.
-- WaitForReceipt has 41 rounds of three seconds: two minutes have room for no more. Block numbers
-- are taken to be below 2^63, as the conversion to int64 needs; the one subtraction on uint64 wraps
-- around in the model as in the code.
--
-- Not modelled: the connection to the node (client/eth_client.go), which the main program sets before
-- anything else runs; loading of the configuration, the private key with it, and of the ABI files,
-- whose nil checks never fire after the start; mail, Telegram and the notifiers; log output, except
-- the slices in log lines that panic; HTTP and JSON of the BscScan client; the tickers, channels and
-- goroutines of main.go, parser/listener.go and parser/listener_token.go. The goroutines of one round
-- of polling only ask for receipts and run in the order of their start.
pub mod Base
pub mod Client
pub mod Config
pub mod Database
pub mod Entity
pub mod Manager
pub mod Parser
pub mod Tests
pub mod Trade
pub mod Utils
pub mod World

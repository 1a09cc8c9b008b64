-- ===== src/Lib.antt =====
-- A model of the trading system in src/trading, and what holds of it.
--
-- The parts and how they meet. A strategy hands a `TradeIntent` to the executor
-- (src/trading/executor/default.py: Executor), which asks the risk manager
-- (src/trading/risk/default.py: Risk.Manager) and passes an approved intent to the order manager
-- (src/trading/oms/default.py: Oms). The order manager places it with a venue; the venue modelled
-- here is the paper venue (src/trading/venues/paper.py: Paper), which takes its fills from one of
-- the fill engines (src/trading/fill: Fill) and reports orders and fills through callbacks, which
-- the order manager caches and journals (src/trading/persistence: Journal in memory, Sqlite on a
-- file, with the JSON of _serde.py in Serde). The position manager
-- (src/trading/pms/default.py: Pms) mirrors the venue's account. The risk manager evaluates the
-- circuit breakers (src/trading/risk/breakers: Risk) over these, and publishes a `BreakerTripped`
-- for each trip on the event bus (src/trading/runtime/event_bus/in_memory.py: Runtime.Bus). The
-- supervisor (src/trading/runtime/supervisor/default.py: Runtime.Supervisor) starts and stops all
-- of them, owns the `SystemState`, and raises alerts through the router
-- (src/trading/alerts/router/in_memory.py: Alerts), which the entry point
-- (src/trading/runtime/main.py: Runtime.Main) sends to the log. Books, trades and funding rates
-- come from the live market data (src/trading/market_data/live.py: Market), whose texts and those
-- of the orders are Bybit's (src/trading/bybit, src/trading/venues/bybit: Bybit). The components
-- that never trade (src/trading/venues/null.py and its like) are in Idle.
--
-- How state and operations correspond. A class is a record of its attributes, and a method is a
-- function of the record with the method's name; a leading underscore is dropped. Domain holds the
-- value objects of src/trading/domain and the events, Values the texts of their enumerations. Base
-- holds the dicts, the decimals and the list functions of the language. Examples holds one concrete
-- input for each result. The order manager is over an interface of its journal
-- (Journal.OrderLog.JournalCalls), which the in-memory journal fills there and a started SQLite
-- journal on a file in Sqlite.Orders.Wired; what the other managers answer to the risk manager, or
-- that they raise, is an argument of its methods (Risk.Manager.Answers).
--
-- Choices. Symbols, order ids and names are only compared, so they are numbers. A `datetime` is a
-- number of microseconds, and a `timedelta` is not negative. A `Decimal` is an integer count of one
-- small unit: sums, differences and comparisons are exact, while products and quotients are
-- operations of a `Context`, of which a theorem assumes what it names (`IsExact`, `IsMonotone`). A
-- formatted message is a `Reason` that carries the values it formats. A method that raises answers
-- `none`, or `raised` in the supervisor. A dict is a list of entries in insertion order. The
-- callbacks of the paper venue return, call no method of the venue, and are listed in `outbox`.
-- Nothing is assumed of the clock: its readings may go back. Whether a call of the supervisor on a
-- component raises is an argument (`World`), for each call by its number. There is no fuel: every
-- loop is over a list, or counts a number down (the rounds of a session, the digits of a text).
-- An SQLite table is its rows, numbered from 1; a column of decimals holds the value that its text
-- stands for, and one of times holds the ISO text, which is compared by its characters as SQLite
-- does; where a statement leaves the order of its rows open they come by number, and the theorems on
-- it do not depend on that. A JSON payload is its tree. A numeric text of Bybit is known by what the
-- code tells apart. The clients of SQLite, of the socket and of Bybit's HTTP interface are
-- parameters, or the behaviour that their statements document.
--
-- Not modelled: methods of the supervisor that overlap at their awaits, but for a stop during a
-- quarantine or an acknowledgement (Runtime.Supervisor.Routine); division by zero and
-- overflow in the decimal context; the range of `datetime`; start and stop of components that do
-- nothing in them; log lines other than alerts; the failure of a statement of an open SQLite
-- connection, and of a call of the order manager's journal; the command line and the signal
-- handlers; a round of the loop that the shutdown cancels midway; the scripts; and the abstract
-- bases.
pub mod Base
pub mod Domain
pub mod Clock
pub mod Fill
pub mod Paper
pub mod Journal
pub mod Oms
pub mod Risk
pub mod Executor
pub mod Runtime
pub mod Alerts
pub mod Pms
pub mod Market
pub mod Examples
pub mod Sqlite
pub mod Values
pub mod Serde
pub mod Bybit
pub mod Idle

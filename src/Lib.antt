-- ===== src/Lib.antt =====
-- Verification of misgeret, a personal finance application: the parts of its server that decide which
-- numbers a household sees and which operations may touch its databases, and the parts of its desktop
-- shell that start, stop and replace the server.
--
-- The parts, and how they interact:
--   Operations  server/src/operation-coordinator.ts, class OperationCoordinator: one lease at a time
--               for syncing, backing up, restoring and migrating a profile's database.
--   Semaphore   server/src/workspaces.ts, createScrapeSemaphore and once: at most so many headless
--               browsers for all profiles.
--   Hub         server/src/workspaces.ts, class CoordinatorHub: the states of all coordinators as one
--               state, which the desktop reads before it restarts the runtime.
--   Pool        server/src/workspaces.ts, class WorkspacePool: the open databases of the profiles. The
--               data and what one stretch of code does to them stand in Pool, the calls and the steps
--               in Pool.Calls, and Pool.Registries has the registry of objects, ids and leases that
--               the steps refine (Pool.Moves).
--   RuntimeManager  desktop/src/runtime-manager.ts: the desktop's view of the server's process.
--   Updater     desktop/src/updater.ts: the state of the update of the packaged app.
--   Profiles    server/src/profiles.ts, class ProfileStore: the profiles, the registry file and the
--               directories that hold their databases. Profiles.Checks has ids, names and colors,
--               Profiles.Free the searches for a free name, Profiles.Registry the file,
--               Profiles.Loading `load`, Profiles.Requests and Profiles.Changes the operations.
--   Companies   server/src/companies.ts: kinds, history ceilings and outages of the institutions, and
--               the error code that a failed sync stores.
--   Exclusion   server/src/companies.ts, flagExcluded: the rows that count in no view, since the card's
--               own rows stand for them, or since the money stayed in the household.
--   Text        JavaScript's text functions on lists of characters, as the next parts use them.
--   Savings     server/src/savings.ts: what a text says happened to a savings instrument.
--   Categories  server/src/categories.ts: the category of a transaction, in tiers, and in
--               Categories.Merchants the identity of its merchant.
--   Txns        server/src/txns.ts: the mapping of a scraped transaction, the merge of the same
--               transaction from two connections, the monthly summary and the breakdown by category.
--   Calendar    the month and day arithmetic of server/src/flow.ts and server/src/balance-history.ts.
--   Flow        server/src/flow.ts: buildFlowCalendar, which decides the month a transaction belongs
--               to, and applyLens, which moves the rows into these months.
--   Balance     server/src/balance-history.ts: daily balances from the last known one backwards.
--   Cards       server/src/cards.ts: the debits of the card companies, past and scheduled.
--   Expectation server/src/expectation.ts: what the running month is expected to cost.
--   Goals       server/src/goals.ts: how far each goal of the household is.
--   Recurring   server/src/recurring.ts: the payments that come again. Recurring has the dates and the
--               refunds, Recurring.Streams the medians, installments and liveness, Recurring.Groups
--               the groups and cadences, Recurring.Detection the detection.
--   Holdings    server/src/account-state.ts: what a line of the bank's summary means against the
--               holdings that the user keeps, and when a value is stale.
--   NetWorth    server/src/networth.ts: value timelines, the series of each layer (NetWorth.Layers),
--               attribution of changes, gross totals.
--   Base        what the parts share: integers over the native naturals, a Map as an association list
--               in insertion order (Base.Dict), a stable sort (Base.Sort), lemmas on lists.
--   Tests       concrete inputs for the theorems.
-- A scraped transaction is mapped and merged across connections (Txns), flagged (Exclusion), moved to
-- its flow month (Flow on Calendar, with the kinds of Companies) and summed by month (Txns); the
-- monthly summaries and the daily balances (Balance) meet in the attribution of the net worth
-- (NetWorth). The flagged rows are read by Cards, and sums of them by Expectation and Goals;
-- Recurring finds the streams among them.
-- The savings words (Savings) and the merchant's identity (Categories) are read by Exclusion and Flow.
-- A coordinator (Operations) is a member of the hub (Hub), and every scrape holds a permit
-- (Semaphore). A request leases the workspace of a profile from the pool (Pool), whose entries hold
-- the coordinators; the profiles themselves are kept by Profiles. The desktop starts and stops the server (RuntimeManager) and replaces it
-- (Updater).
--
-- How the code is modelled:
--   A function keeps its name, in snake case. A method takes the state and returns the next one; a
--   promise, a listener and a request are numbers, and what was resolved, told or admitted is part of
--   the state. A sequence of calls is a list of `Call` or `Event`, run by `step`.
--   Amounts are whole agorot as integers, on which round2 is the identity; sums of binary fractions
--   and their rounding are not modelled.
--   A date 'YYYY-MM-DD' is a record of three numbers and 'YYYY-MM' one of two; for years of four
--   digits the order of the texts is the order of the numbers. An ISO instant is its number of
--   milliseconds. The Intl tables that give the day in Israel of an instant are the parameter
--   `local_date` (`local_day` in Cards), SHA-256 is the parameter `hash`, localeCompare is
--   `locale_leb`, and `upper` is toUpperCase.
--   A text that is only compared is a String; where its characters matter it is a list of their
--   numbers. The Hebrew words of the code's tables are written with one Latin letter for each Hebrew
--   one, which `hebrew` of Text reads. The regular expressions are written out as functions.
--   Asynchronous code (Pool) is cut at its awaits: an event names the stretch of code that runs next,
--   and a list of events is one interleaving. An object that outlives its entry in a map is kept in a
--   store by its number.
--   The file system (Profiles) is the content of the registry file and the lists of entries below
--   profiles/ and deleted-profiles/; an entry of profiles/ is a file or a directory with or without a
--   marker, a database and other things. What the platform answers in a call (time, UUID, which steps
--   fail) is the argument `os`, so a failed write, and a crash before it, are values of it. `fold` is
--   toLocaleLowerCase and `le_text` is localeCompare. What JSON.stringify writes, JSON.parse reads.
--   Medians (Recurring) are kept doubled and rounded exactly.
--   0.25 times a median is compared eightfold, so that it stays whole.
--   The key of the merge is the record of the six joined parts: the code's joined text tells two
--   such records apart as long as no account or description holds the separator '|'.
--
-- Fuel: the two loops of monthsBack run on the absolute value of n and one more, the binary search of
-- closeBefore on the length of the history, and the walk of reconstructDailyBalances on the difference
-- of two numbers that fall with each day; the theorems on them show that the loops end by their tests.
-- The searches of Profiles for a free name run on the number of names there and one more: so many
-- different candidates cannot all be taken.
--
-- Not modelled: HTTP routes, SQL, scraping, credentials, the migration of the layout from before there
-- were profiles, the rest of the desktop shell and the client; of the modelled files, the parser of
-- account-state.ts and the regression slope of balanceStats.
pub mod Balance
pub mod Base
pub mod Calendar
pub mod Cards
pub mod Categories
pub mod Companies
pub mod Exclusion
pub mod Expectation
pub mod Flow
pub mod Goals
pub mod Holdings
pub mod Hub
pub mod NetWorth
pub mod Operations
pub mod Pool
pub mod Profiles
pub mod Recurring
pub mod RuntimeManager
pub mod Savings
pub mod Semaphore
pub mod Tests
pub mod Text
pub mod Txns
pub mod Updater

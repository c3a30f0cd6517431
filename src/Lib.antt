-- ===== src/Lib.antt =====
-- A model of nanci, the program that pulls fiscal documents (NFS-e, NF-e, CT-e) of a company from the
-- services of the Brazilian tax authorities by their NSU and keeps them in a database.
--
-- The parts of the program and the files that model them:
-- * internal/sync (Sync): the pull loop. Sync/Error has the errors of loop.go and how they are classified,
--   Sync/Types the values and rows, Sync/Env the state of a run and the world around it, Sync/Rows the rows that
--   the statements of store.go write and Sync/Store those statements, Sync/Budget the hourly request budget,
--   Sync/Item processItem and skipPoisonItem, Sync/Batch processBatch, Sync/Loop Sync itself, and Sync/Dist the
--   batches of dist.go and source_nfse.go. Sync/Cover, Sync/Count and Sync/Closing hold the proofs over whole runs.
--   Sync/Dfe has the steps of source_dfe.go, which are generic in the tables of the source, and Sync/Nfe ProcessItem
--   of source_nfe.go over the tables of Store/Nfe, Sync/Nfse that of source_nfse.go over those of Store/Nfse;
--   Sync/Content carries a predicate on the content of a source, which ProcessItem keeps, over a whole run.
--   Sync/Cover/Journal keeps a journal beside the content of any source: it notes each item whose write was committed
--   and each on which ProcessItem failed with a ProcessingError. It asks promises of the service and of the database
--   only, not of ProcessItem.
--   Sync/Manager has the marks of the pulls in flight and the limits of a source of manager.go; the calls of
--   concurrent pulls are a relation of steps, since a mutex makes each of them one.
-- * internal/foundation/cnpj and uf (Cnpj, Uf), internal/dfe (Dfe): CNPJs, states, access keys,
--   amounts, and the key of a document by its protocol and its Id.
-- * internal/nfe (Nfe): merging, participation and manifestação of the NF-e.
-- * internal/cte (Cte): merging and participation of the CT-e. The situação, its order and the comparison of
--   parties are those of Nfe, since the two packages declare the same code.
-- * internal/nfse (Nfse): the NFS-e, its events and its participation. Store/Nfse/Rows has its rows and the
--   statements on them, Store/Nfse what store.go of internal/sync writes, and Store/Nfse/Current the proofs on the
--   status.
-- * internal/store/nfe.go and dfe.go (Store): the NF-e repository. Store/Tx has its transactions, Store/Select the
--   selections of rows, Store/Nfe/Tables the rows and constraints of the schema, Store/Nfe/Rows the statements of
--   queries/nfe.sql, Store/Nfe/Apply the calls of the pull and of the manifestação, Store/Nfe/Marks the marks and
--   listings, Store/Nfe/Exports the export of a listing, Store/Nfe/Reset ResetCompany, and Store/Nfe/Calls any
--   sequence of these calls. Store/Nfe/Fresh holds the proofs on the derived columns.
-- * Prelude and Text hold the shared helpers: tests on numbers, lists, signed integers, Go strings as bytes.
--
-- The loop calls the source for a batch, spends a request of the budget before it, processes the items one by
-- one and commits each with its checkpoint in one transaction. A run is a function on `Run`: the rows of one
-- company, source, environment and CNPJ (`Db`), the variables of the run (`Runtime`) and a count of the
-- steps at which the world may act. `Env` is the world: at each step it may fail a database call, cancel the
-- context or answer a fetch. A transaction fails and changes nothing, or is applied whole; a crash is a world
-- that fails every later call. `prepare` is the part of ProcessItem before its one commit, and the content
-- it may change is what the source itself keeps. `Traffic` is the log of requests with the steps at which Fetch was
-- called; no code reads these. Error texts are kept as the error values they come from.
--
-- A table of the NF-e is the list of its rows, newest first. A statement is a function on the tables that may
-- violate a constraint, and `World` is what may fail it besides; a failure ends the transaction, whose writes are
-- then dropped. SQLite lets one transaction write at a time, so concurrent calls are a sequence of them. `order`
-- stands for the ORDER BY of the events, which compares the texts of times; no theorem relies on what it does. `sort`
-- stands for the ORDER BY of the listings, before their LIMIT: it leaves the rows as they are. ResetSyncStateTx in
-- ResetCompany is two statements that may fail: its rows are those of internal/sync, not of the NF-e repository.
-- The columns that hold enumerations have their values only, as the CHECK constraints of the schema say.
--
-- Times are whole seconds, as the store keeps them, and NSUs are natural numbers: the client of SEFAZ
-- rejects negative ones. Amounts are signed integers with the wrap-around of int64 written out. Go strings are
-- byte lists; `Unicode` stands for strings.ToUpper and strings.TrimSpace on text that is not ASCII.
--
-- The `for` of Sync runs on fuel. Each round but the last raises the cursor, so as much fuel as the source
-- has NSUs, and one more, is enough. `decimal` runs on the number it prints, and one more.
--
-- Left out: the progress callback and the logs, which change no state; HTTP, SOAP, XML and signatures, whose
-- results are parameters; the encoding of fields as columns; the interfaces, reports and rendering.
pub mod Prelude
pub mod Text
pub mod Cnpj
pub mod Uf
pub mod Dfe
pub mod Nfe
pub mod Cte
pub mod Nfse
pub mod Store
pub mod Sync

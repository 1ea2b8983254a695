-- ===== src/Lib.antt =====
-- Markaz: an ERP for small companies. This library models the core of it (packages/core/src) and
-- proves what its parts promise.
--
-- The program. Services share one PostgreSQL database through Prisma. Every amount that moves goes
-- through the accounting engine, which writes journal entries and their lines in one transaction,
-- numbers them without gaps, and reverses them by mirrored entries; CHECKs and triggers of the
-- database guard the same tables. Stock is valued at a weighted average, invoices are computed line
-- by line, pay is computed from rates, and the reports read the ledger back.
--
-- How it is modelled. `Store` has the tables as lists of rows and a step as a function from tables
-- to a result with new tables: a thrown error leaves no change, as a transaction that is rolled
-- back does. Calls of the services are a sequence of steps, which the row locks of the source make
-- them. Ids are numbers from a counter, dates are days. Amounts are `Decimals`: integers of the
-- smallest unit, exact in sums and comparisons; products, quotients and rounding belong to
-- decimal.js and to the NUMERIC columns, and are a parameter (`Arithmetic`) with the documented
-- properties that are used (`IsArithmetic`); `Tests.FourPlaces` has one arithmetic of this kind.
--
-- The parts.
-- - Accounting.Numbering (packages/core/src/accounting/numbering.service.ts): `next` is
--   PrismaNumberingService.next.
-- - Accounting.Engine (packages/core/src/accounting/accounting-engine.service.ts, contracts.ts, and
--   the migration 20260910110000_ledger_integrity_constraints of packages/db): Command is
--   validateShape and the lookups, Constraints the CHECK, the triggers and COMMIT, Post is
--   postEntry, Reverse is reverseEntry; the other modules below it are proofs.
-- - Of packages/core/src/accounting also Accounting.DecimalSum (decimal-sum.util.ts),
--   Accounting.TrialBalance (trial-balance.service.ts), Accounting.FiscalYear
--   (fiscal-period.util.ts, company-currency.util.ts) and Accounting.Statements
--   (revenue-expense.util.ts, income-statement.service.ts, balance-sheet.service.ts): the reports,
--   on the rows that their SQL returns.
-- - Inventory.WeightedAverage (packages/core/src/inventory/weighted-average.util.ts): receipts,
--   issues, counts.
-- - Inventory.AccountMapping (account-mapping.service.ts of the same directory): set and resolve.
--   Inventory.Stock has the tables, Inventory.StockRow is stock-row.repo.ts,
--   Inventory.StockDocument what the two documents write alike, Inventory.StockIssue is create of
--   stock-issue.service.ts and Inventory.GoodsReceipt create and createIn of
--   goods-receipt.service.ts, Inventory.StockCount record and Inventory.StockCount.Post post of
--   stock-count.service.ts; Inventory.Perpetual is proofs.
-- - Accounting.AccountCode (packages/core/src/accounting/account-code.ts): the next code under an
--   account.
-- - Purchasing.InvoiceMath (packages/core/src/purchasing/supplier-invoice.util.ts): the sums of an
--   invoice.
-- - Purchasing.PurchaseRequest (packages/core/src/purchasing/purchase-request.service.ts): create,
--   accept, reject.
-- - Purchasing.PurchaseOrder (purchase-order.service.ts of the same directory): the tables of
--   orders, decide and cancel. Purchasing.PurchaseReceipt (purchase-receipt.service.ts): receive,
--   which calls createIn of the goods receipt. Purchasing.OrderStates is proofs.
-- - Sales.Lines (packages/core/src/sales/sales-lines.ts): the prices of the lines of a document.
-- - Hr.Gosi (packages/core/src/hr/gosi.ts), Hr.Advances
--   (packages/core/src/hr/salary-advance-balance.ts) and Hr.Eosb (packages/core/src/hr/eosb.ts):
--   pay.
-- - Attachments (packages/core/src/attachments/attachment-rules.ts): what may be attached, and file
--   types.
-- - Licensing (packages/core/src/licensing/grace-period.ts): the status of the licence.
-- - Reference (packages/core/src/reference.ts): document numbers with a prefix, over
--   Accounting.Numbering.
-- - Payments (packages/core/src/payments): Outstanding is outstanding.ts and the tables, Command
--   and Payment are create of payment.service.ts (its result is the transaction of the source,
--   COMMIT included), Aging is aging.util.ts and the sums of aging.service.ts.
-- - Approvals (packages/core/src/approvals): evaluateAndRequest and decide, on a state of their
--   own.
-- - Tests: runs of all this at concrete inputs.
--
-- Bounds. Loops over lists are structural recursion. The climb of levelOf goes up parents that may
-- form a cycle: it runs on as much fuel as there are accounts, which Accounting.AccountCode.Climb
-- shows to be enough, since no account is met twice.
--
-- Not modelled: SQL that groups and sums rows for a report, HTTP controllers, the web client, the
-- print agent, and the services that are not named above.
pub mod Prelude
pub mod Decimals
pub mod Store
pub mod Accounting
pub mod Inventory
pub mod Purchasing
pub mod Sales
pub mod Payments
pub mod Hr
pub mod Approvals
pub mod Licensing
pub mod Attachments
pub mod Tests
pub mod Reference

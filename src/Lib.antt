-- ===== src/Lib.antt =====
-- pangu-sales-manager: the activity and price tracking of a Temu shop.
--
-- The program pulls the marketing enrolments of the shop and the goods they offer into a snapshot
-- (internal/marketing/syncer.go), compares each snapshot with the one before to find out under
-- which activity each SKC sells (internal/marketing/activity_observer.go and activity_state.go),
-- derives a price for each SKU (internal/marketing/sku_price_state.go), and answers queries from
-- the snapshot (internal/marketing/effective_prices.go, activity_rows.go). The prices are kept as a
-- history of intervals (activity_store.go), from which questions about the past are answered
-- (sku_price_query.go) and past order lines are priced (order_price_backfill.go). The profit sheets
-- that the shop owner uploads are read into records (profit_import.go). The pull of the
-- orders is planned as full or incremental (store.go).
--
-- The files:
--   Base.antt and Base/      names of the libraries passed on, tests, Go's int64 and its wrap-around,
--                            lists, maps, a stable sort, texts as code points
--   Temu.antt                the records of internal/temu/marketing.go and internal/temu/goods.go
--   Temu/Errors.antt         APIError and IsRateLimitError of internal/temu/client.go
--   Temu/Slots.antt          SetRequestInterval and the reservation in waitForRequestSlot
--   Temu/Payload.antt        BuildPayload, BuildSignature and serializeSignValue
--   Temu/Calls.antt          Call, the rest of waitForRequestSlot, and rawScalar
--   Marketing/Ids.antt       uniqueSorted, intersectIDs, equalIDs of activity_state.go
--   Marketing/State.antt     ResolveSKCActivityState, one function for each branch
--   Marketing/Price.antt     ResolveSKUPriceState
--   Marketing/Snapshot.antt  the type Snapshot of syncer.go
--   Marketing/Observation.antt  the state of the observer and what it reports
--   Marketing/Observer.antt  ActivityObserver: Observe and Latest
--   Marketing/Effective.antt EffectivePrices
--   Marketing/RowData.antt   the rows of activity_rows.go, its filter and its summary
--   Marketing/Rows.antt      ActivityRows, enrollmentRows, rowsForSessions, summarizeSnapshot
--   Marketing/Retry.antt     retry and retryable of syncer.go
--   Marketing/Syncer.antt    Sync, currentEnrollment, syncCurrentGoods, batches, finish, publish
--   Intervals.antt           updateTemuSKUPriceIntervals of activity_store.go, over a table of rows
--   Questions.antt           the questions and answers of sku_price_query.go, and the SQL that
--                            chooses the nearest interval
--   Query.antt               resolveSKUPriceQueries and resolveHistoricalSKUPrices of
--                            sku_price_query.go
--   SyncPlan.antt            planSync and decideSyncMode of store.go
--   OrderLines.antt          the records of order_price_backfill.go
--   LineQueries.antt         its questions to the price query, and their answers by line
--   Backfill.antt            backfillOrderPriceEstimates of order_price_backfill.go
--   Profit/Records.antt      the records of profit_types.go
--   Profit/Numbers.antt, Cells, Errors  how profit_import.go reads a cell and a heading
--   Profit/Flat.antt, Settled  its sheets with one record to a row
--   Profit/Orders.antt       parseSettledParentOrders and parseUnsettleOrders
--   Profit/Kinds.antt, Paths  detectProfitFileKind, and the paths in a zip file
--   Profit/Workbook.antt     parseProfitWorkbook and parseFundDetailWorkbook
--   Profit/Upload.antt       parseProfitUpload, parseProfitZip, recordCount
--   Pull/Types.antt          the records of types.go
--   Pull/Letters.antt        capitals, lengths in bytes and decimals, as syncer.go uses them
--   Pull/Matching.antt       matchWarehouseCode, matchWarehouseSKU, onlyDigits, temuStatus of syncer.go
--   Pull/TemuOrders.antt     parseTemuSalesOrder of temu_sales_source.go
--   Pull/Run.antt            Syncer.Run of syncer.go
--   XlwmsData.antt           the data of internal/xlwms/client.go, and its transport
--   Xlwms.antt               its client: doJSON, ListAccounts, ListMappings, CreateMapping
--   Tests.antt and Tests/    a small shop, and runs on it
-- The modules below each of these, and the others in Temu/, Profit/ and Pull/, hold what is proved of it.
--
-- Integers are Go's int64: subtractions and sums of stocks wrap around; counts of pages and lengths
-- of lists are natural numbers. Times are whole numbers from Go's zero time. A map is an
-- association list with one entry for a key; where Go walks a map in an order that it chooses, the
-- result is sorted or put in a map again, so that the order does not matter. A lock is not part of
-- the state, since each operation runs under it, and a clone is the value itself.
--
-- The pull is a function of the state of the outside (the server, the clock and the context), which
-- the client, the clock and the wait of the record Services change. Its loops over pages run on
-- fuel; enough fuel is stated in terms of the totals that the server reports, and is 1 for each 50
-- of them.
--
-- The database is a list of rows, and a statement a value that changes it; which statements it
-- refuses, for a reason other than the unique index on open intervals, is an argument, and a
-- transaction with a refused statement changes nothing. The batches of Backfill and of the pull run
-- on as much fuel as there are items, since each batch takes at least one.
--
-- The profit import is over a record of what it uses of floats and of the calendar, Formats, over
-- the spreadsheet package, Spreadsheets, and over the reading of a zip file; each may fail. A loop
-- that sheets share is written once, over what is done with a row. Errors are values, one
-- constructor for each message.
--
-- The pull of the orders is a function of the state of the outside too, which the calls of the record
-- Sources and of the records Transport and Web change. The pages of ListMappings run on fuel, and
-- fuel for as many pages as the server ever says there are is enough. JSON is decoded by a parameter;
-- MD5 is one too. The capitals and the folding of letters outside ASCII are parameters, the record
-- Letters.
--
-- Not modelled: the HTTP server, the process loop, the analytics and the profit reports, which are
-- mostly SQL and JSON, and the SQL that reads orders and stocks from the source databases.
pub mod Base
pub mod Temu
pub mod Marketing
pub mod Intervals
pub mod Questions
pub mod Query
pub mod OrderLines
pub mod LineQueries
pub mod Backfill
pub mod SyncPlan
pub mod Profit
pub mod Pull
pub mod XlwmsData
pub mod Xlwms
pub mod Tests

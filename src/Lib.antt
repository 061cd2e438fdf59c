-- ===== src/Lib.antt =====
-- The merge policies, the grants, the commit queue and the stored forms of documents and tables
-- of the snapshot engine, a versioned database.
--
-- The engine (engine/) gives each branch a working set that transactions and sessions commit to.
-- A commit waits in its branch's queue until it is told to lead; the leader takes a batch from the
-- head, publishes it in one swap and hands the queue on (engine/queue.go). What a principal may do
-- is asked of an Authorizer, of which Grants (engine/grants.go) is the one that the engine ships.
-- Where two commits changed the same object, the model of the object merges the two sides with the
-- policies of merge/, over the base they began from. What a model keeps is bytes in the storage core: a
-- document is its canonical JSON (model/document/), a table's schema a catalog record,
-- and its rows are under keys whose byte order is the order of their values (model/table/).
--
-- Shared          the operations on numbers, lists, bytes and association lists that the parts share.
-- Grants          engine/grants.go: `Model` has every method of `Grants` and `split`, `Bits` the
--                 permission sets. object.ValidPath is a parameter. The mutex is left out, since
--                 every method holds it throughout.
-- Queue           engine/queue.go: `Turns` has `enqueue`, `kick`, `take`, `leave` and `lead` as the steps
--                 that interleaved callers take under Database.qmu; of a leader's run it has the members' outcomes,
--                 one by one, and the end, which a panic reaches too. `Publish` and `Attempt` have that run for a batch of transactions
--                 (`publish`, `attempt`, `mayWrite`, `batchAuthorizer`, engine/errors.go's `translate`,
--                 engine/txn.go's `onto`), over a record of what the storage core, the authorizer and a
--                 transaction's rebase and merge answer during an attempt. Within one attempt a question has one
--                 answer. An enqueue that the test seam sends past the queue (`bypass`) is left out.
-- Merge           merge/merge.go in `Types` and `Scalar`, merge/set.go in `Sets`, merge/sequence.go in
--                 `Align` (`middle`), `Diff` (`diff`, `align`) and `Sequence` (`Sequence`, `resolve`),
--                 merge/tree.go in `Node` and `Tree`.
-- Document        model/document/json.go: the parser's state and results in `Outcome`, strings in `Quoted`,
--                 numbers in `Decimal`, `Parse` and `Encode` in `Json`, over what Go's utf8 and utf16 do in
--                 `Text`; model/document/record.go in `Record`. A value is a `Node` of `Merge`.
-- Wire            the storage core's package wire as a record of operations and one of laws (what is
--                 written is read back), with an instance in `Cells`.
-- Table           model/table/table.go: `Validate` in `Schema`, `EncodeCatalog` and `DecodeCatalog` in
--                 `Catalog`, over a `Wire`; model/table/cell.go: the pieces of cells in `Ordered`, numerics in
--                 `Numeric`, `encodeCell` and `decodeCell` in `Cell`, for cells as `Precedes` orders them;
--                 model/table/store.go's `encodeKey` and `decodeKey` in `Keys`, whose limit on a key is the
--                 storage core's and a parameter; model/table/alter.go but `WithSchema` in `Alter`, over the
--                 machine's widening of a float; model/table/schemamerge.go in `SchemaMerge`, over the choice of the
--                 attribute that a conflict names.
--
-- Strings are lists of bytes, an int64 is its bit pattern below 2 ^ 64, a Go map is an association list
-- whose lookup takes the first entry of a key, and a pointer that may be nil is an Option. An index or a
-- slice out of range, a panic in the source, is `none`. `Tree.tree` runs on 65 units of fuel, one more
-- than the depth of values that it merges; `Diff.align` on one unit more than both lists have elements
-- together, since each half of a divided pair of lists is shorter by at least one; each loop of `Align`
-- and `Diff` on as many units as it has rounds. `ParseInt` and `FormatInt` are written out for base 10 and
-- 64 bits. `Json.parse` runs on three units of fuel for each byte and three more, which the texts that
-- `encode` writes need no more of. An error of the parser has its reason and not its position.
-- `Attempt.publish` makes the source's five attempts.
--
-- Not modelled: a transaction's rebase and merge, the model of kv, collections of documents, the merge of
-- tables' rows and the values of rows but their cells, sessions, the test seams and the deadlines of the
-- engine, and the storage core, which is another repository and a parameter where the code calls it. So is
-- strconv.Quote.
pub mod Shared
pub mod Merge
pub mod Document
pub mod Wire
pub mod Table
pub mod Grants
pub mod Queue

-- ===== src/Lib.antt =====
-- Knowtion keeps a workspace of pages and databases as a log of immutable packs in a folder that any
-- file synchroniser may copy. This library models the parts that decide whether data survives:
-- the pack envelope and its encryption, the store that pushes and pulls packs, what may be collected or
-- evicted, the property values of a database, its formulas and the query language of its views.
--
-- Files and sources:
--
--   Pack          packages/format/src: envelope.ts (encodePack, decodePack, verifyPackSignature),
--                 constants.ts (Pack/Layout), crc32c.ts (Pack/Crc), errors.ts. Pack/Bytes has the
--                 little-endian fields and the writes into a byte array, Pack/Aead the framed chunks of
--                 aead.ts, Pack/Sealed sealPack and openPack of sealed-pack.ts,
--                 Pack/Sidecar decodeSidecar of cbor.ts.
--   Sync          packages/sync/src: pack-store.ts and read-errors.ts. Sync/Paths has the names in the
--                 folder, Sync/Store the state of a PackStore, Sync/Store/Pull the loops of pull and
--                 applySnapshot, Sync/Store/Gather the rest of pull, Sync/Store/Push push and
--                 resolveOccupiedSeq over a StoragePort (storage-port.ts).
--   Storage       packages/sync/src: storage-port.ts as a record of operations, memory-storage.ts as an
--                 implementation of it (Storage/Memory), and what a folder promises as a state in
--                 Storage/Refined.
--   Retention     packages/sync/src: trim-floor.ts, data-loss-guard.ts (Retention/Guard), eviction.ts and
--                 the collection of compactor.ts (Retention/Compaction).
--   Property      packages/engine/src/properties.ts: Property/Dates the texts, Property/Calendar localDateOf
--                 and addDays, Property/Values the definitions, the values and their stored form.
--   Query         packages/engine/src/query.ts: Query/Grammar, Query/Parse, Query/Problems (validateSpec,
--                 sanitiseSpec) and Query/Rewrite (resolveDates, stripProperty).
--   Evaluate      packages/engine/src/evaluate.ts: Evaluate/Matching, Evaluate/Sorting, Evaluate/View.
--   Formula       packages/engine/src/formula.ts: Formula/Grammar, Formula/Tokens, Formula/Parse,
--                 Formula/Values (coercions and comparison), Formula/Functions and Formula/Evaluate.
--   Csv           packages/importers/src/csv.ts.
--   Export        packages/exporters/src/paths.ts: sanitiseName.
--   OrderKey      packages/engine/src/order-key.ts: OrderKey/Compare, OrderKey/Digits (midpointFraction)
--                 and OrderKey/Generate (split, the steps of the integer part, orderKeyBetween).
--   Base          lists, options, results, maps and tests that all of these share; Json the plain
--                 objects of the log; Tests sample data and concrete runs.
--
-- A push encodes the document's new operations as a pack and writes it under the next number; a pull
-- decodes the packs of a listing, checks signature and chain, and imports what passes. The rows that
-- the document then holds carry property values, which a view filters, sorts and groups.
--
-- A text is the list of its code points (a lone surrogate is one), a byte array a list of numbers
-- below 256, a Map or a Set a list in insertion order. An exception is an error value beside the state that it leaves
-- behind, so a loop that throws keeps what it had changed.
--
-- Parameters: BLAKE3 and Ed25519 (Crypto, with their widths and that a signature verifies as
-- IsLawful), floating-point numbers, Unicode folding,
-- Intl.DateTimeFormat and Date (Runtime), the Loro
-- document (Platform), sealing and opening a payload and the registered keys (PackCrypto) and the
-- storage port, whose promises on the contents of a folder are IsPort and IsFolder. Numbers that are
-- finite are ordered as HasWeakOrder says. Formulas take Math, String and the length that a string may have as the operations of Arithmetic and the
-- comparison of two texts; sealing takes HKDF and XChaCha20-Poly1305 (Cipher, of which IsCipher says that
-- a key opens what it sealed); retention takes the decoding of JSON and of
-- version vectors, a sidecar record the CBOR decoder. In a pull the listing and the reads are arguments, since an object is read once.
--
-- Bounds: the fields of the header are bounded as the encoder checks them, or by HasRoom for the two
-- it does not check. Decimal text takes the number as fuel, which is more than its digits. The
-- parser of formulas takes fuel of four for each token and two more, and the reader of encrypted chunks
-- one for each byte and one more, as a chunk has a nonce and a tag at least; that the fuel is enough
-- for every text, and for what the encryption writes, is part of the results. Every other loop is
-- structural. The fraction of lost documents is compared in whole numbers.
--
-- Not modelled: messages of errors and the position of a function's name, the rounding of sequence
-- numbers above 2 ^ 53, names that formulas inherit from JavaScript objects, folder calls that are
-- rejected, writing a snapshot, the device registry, the crash and fault decorators of a folder and the
-- file adapter, the workspace document, the SQL read model, key wrapping, the recovery phrase and
-- the device record, the simulator, the other importers, the rest of the exporters, the editor and the desktop application.
pub mod Base
pub mod Pack
pub mod Runtime
pub mod Json
pub mod Property
pub mod Query
pub mod OrderKey
pub mod Evaluate
pub mod Formula
pub mod Csv
pub mod Export
pub mod Storage
pub mod Sync
pub mod Retention
pub mod Tests

-- ===== src/Lib.antt =====
-- QuasDB: a key-value store (kv/) with an HTTP front end (http_server/).
--
-- A write is a WriteBatch (kv/db/write_batch.cpp): a sequence number, a count and the encoded
-- updates. It is written to the log as it stands and then iterated over, each update going into the
-- memtable under an internal key (kv/db/dbformat.cpp): the user key, a sequence number and a value
-- type. Tables hold the same keys in the order of InternalKeyComparator, and the set of tables
-- changes by VersionEdits (kv/db/version_edit.cpp), which are written to the manifest. All of them
-- are encoded by kv/util/coding.h and report errors by kv/util/status.h. A table is made of blocks
-- (kv/table/), each written with a checksum and found by a handle. A client reads a snapshot
-- through the iterator of kv/db/db_iter.cpp, which stands on an iterator of internal keys. A
-- request for the store reaches it through the request parser of http_server/.
--
-- Which file models which part:
--   Base                  numbers, lists, Booleans, bits and the well-founded order, shared by all
--   Util.Order            the results of three-way comparisons, and what an order is
--   Util.Coding           kv/util/coding.h, kv/util/coding.cpp: EncodeFixed32 is encode_fixed32,
--                         GetVarint32 is get_varint32, and so on
--   Util.Slice            kv/include/slice.h: compare, operator==, starts_with
--   Util.Comparator       kv/include/comparator.h (Comparator, with its contract IsComparator) and
--                         kv/util/comparator.cpp (bytewise_comparator)
--   Util.Status           kv/include/status.h, kv/util/status.cpp: the value (Status) and the bytes
--                         of its state (make_state, message)
--   Db.Format             kv/db/dbformat.h, kv/db/dbformat.cpp: ParsedInternalKey, internal_compare,
--                         make_lookup_key
--   Db.WriteBatch         kv/db/write_batch.cpp: put, delete, append, iterate, insert_into
--   Db.VersionEdit        kv/db/version_edit.h, kv/db/version_edit.cpp: encode_to, decode_from
--   Util.Hash             kv/util/hash.cpp: hash
--   Util.Logging          kv/util/logging.cpp: consume_decimal_number
--   Db.VersionSet         kv/db/version_set.cpp: find_file, some_file_overlaps_range
--   Util.Crc32c           kv/util/crc32c.h: mask, unmask, and Extend as an interface
--   Util.Env              kv/include/env.h: the sequential and the writable file as interfaces
--   Db.Log                kv/db/log_format.h; Db.Log.Writer kv/db/log_writer.cpp (add_record), and
--                         Db.Log.Reader kv/db/log_reader.cpp (read_record)
--   Db.OrderedSet         kv/db/skiplist.h as the memtable sees it
--   Db.MemTable           kv/db/memtable.cpp: add, get
--   Db.SkipList           kv/db/skiplist.h: insert, contains, seek, the other searches, and how it
--                         fills Db.OrderedSet
--   Util.Random           kv/util/random.h: random_next
--   Util.Bloom            kv/util/bloom.cpp: create_filter, key_may_match
--   Util.Iterator         kv/include/iterator.h: the methods of an iterator as functions of its state
--   Table.BlockBuilder    kv/table/block_builder.cpp: add_entry, finish
--   Table.Block           kv/table/block.cpp: open_block, and the iterator with next_entry,
--                         prev_entry, seek_entry
--   Table.Format          kv/table/format.cpp: put_footer, get_footer, read_block; and
--                         write_raw_block of kv/table/table_builder.cpp
--   Db.DbIter             kv/db/db_iter.cpp: db_next, db_prev, db_seek and the rest
--   Http.RequestHandler   http_server/request_handler.cpp: url_decode, and request_path for the first
--                         part of handle_request
--   Http.RequestParser    http_server/request_parser.cpp: consume by one function for each state, parse
--   Tests                 the parts at concrete inputs
-- The child modules of a part hold its proofs and are named for what they prove.
--
-- How the code is read. A string or slice is the list of its bytes, each a natural number below 256
-- where the code needs it. Machine integers are natural numbers with the wrap-around written out
-- (`% 2 ^ 32`), and the bit operations of the varint code are computed on them. A function that writes
-- to a parameter returns its new value; a `Get` that returns false is `none`, and one that returns
-- true gives the value and the input that is left. VersionEdit's flags `has_x_` with their fields are
-- options, its set of deleted files a list that is kept in order. A handler of batches and a memtable
-- are functions on a state type that the client chooses. The buffer that the constructor of Status
-- gets from `new` is a parameter, since the code leaves some of it unwritten.
--
-- The log's files, its reporter, the checksum and the text that snprintf makes of an unknown record
-- type are parameters; a reader's position in its file is part of the file's state. The memtable
-- works on any ordered set of byte strings, and trusts the bytes of its entries as the source does.
-- The bloom filter's floating-point product with 0.69 is a parameter. The skip list is a store: a
-- node has an address, the head has address 0, and keys, links and heights are functions of the
-- address. Its `insert` is `none` where the source's assertion fails. The array `prev` of the
-- source starts uninitialised, here with the head; no entry is read before it is written. Readers
-- that run beside an insertion are not modelled.
--
-- A pointer into a block is an offset, which has no meaning after a corruption error. Snappy and the
-- random access file are parameters. The database's iterator works on the interface of an iterator;
-- the sampling of reads in kv/db/db_impl.cpp and the capacity of the saved value are left out.
--
-- Fuel. iterate_loop, decode_loop and find_file_loop run on fuel, as much as their input is long.
-- In the first two each round takes at least one byte, in the search each round shrinks the range;
-- `none` means that the fuel ran out. The writer's add_loop gets two rounds more than the record
-- has bytes, since each round but the first takes a byte. The skip list's find_loop, find_less_loop
-- and find_last_loop get as many rounds as the list has nodes and levels. The reader's
-- physical_loop reads at most once, so that two rounds do, and its read_loop gets the fuel of the
-- client, for which one round more than the log has bytes is enough. A block's search gets as many
-- rounds as there are restart points, and its loops over entries one more than the block has bytes,
-- since each takes at least one. ParseKey's sampling loop gets two rounds for each byte, and two
-- more, since of two random numbers in a row one is not 0. The other loops of the database's
-- iterator get the fuel of the client, for which one round more than there are entries is enough.
-- encode_varint64_loop and varint_length_loop recurse on the order of the numbers, the rest on the
-- structure of a list.
--
-- Assertions of the code, but for that of Insert, are not modelled: extract_user_key of fewer than
-- eight bytes gives what is left of a subtraction that stops at 0, and a batch shorter than its
-- header reads zeros. FileMetaData is without refs and allowed_seeks, which are not encoded. Where
-- the `int` of a version number in a request overflows, which leaves the source's behaviour undefined,
-- the parser of the model stops with the result `overflow`. The counts of write batches wrap at 2^32
-- in the model, where the source's `int` overflows from 2^31 on.
--
-- Not modelled: the threads, the files and the background work of kv/db/db_impl.cpp, the system
-- calls of the environment, the arena, tables but for their blocks and their format, the cache, the
-- sockets of http_server/, debug printing and the vendored libraries under kv/lib/.
pub mod Base
pub mod Util
pub mod Table
pub mod Db
pub mod Http
pub mod Tests

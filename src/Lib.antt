-- ===== src/Lib.antt =====
-- The native storage engine of credish, an embedded key-value store for Python (src/_credish).
--
-- The parts, from the bottom up, with the files that model them:
-- - Sds: the length-prefixed strings of sds.c, as a record of `len`, `alloc` and the buffer; their
--   buffers (Sds/Buffer) and their order (Sds/Order).
-- - Dict: the chained hash table of dict.c with its two tables, incremental rehashing and
--   iterators, generic in keys and values. Dict/Entry has the chains of a bucket, Dict/Placed the
--   invariant `IsValid` and the finite map `view` that a dictionary stands for; Dict/Rehash,
--   Dict/Grow, Dict/Find, Dict/Write, Dict/Insert, Dict/Delete and Dict/Iterator relate the
--   operations to that map.
-- - Keys: dictionaries keyed by strings, with the hash and the comparison of dict.c.
-- - Adlist: the doubly linked list of adlist.c on a store of nodes; Adlist/Linked says when its nodes
--   stand for a sequence, Adlist/Push, Adlist/Remove, Adlist/Pop and Adlist/Index
--   relate the operations to it.
-- - Skiplist: the skip list of skiplist.c on a store of nodes. Skiplist/Lanes and Skiplist/Valid say
--   when the levels with their spans stand for a sequence of nodes, Skiplist/Order for which list of
--   items, Skiplist/Stops where a search stops; Skiplist/Insert, Skiplist/Delete, Skiplist/Rank and
--   Skiplist/Element relate the operations to that list.
-- - Object: the tagged values of object.c. Lists and sorted sets are type
--   parameters, which ListCommands and SortedSet fill.
-- - Db: one logical database of db.c, a dictionary of objects and one of deadlines, with lazy
--   expiry. Db/Refines has the invariant `IsDb` and `live`, what a client sees at a time.
-- - Aof: the record that `aof_append_len` of db.c appends, and in Aof/Read the parser of
--   persistence/aof.c with the functions of the C library that it calls.
-- - Commands: the commands of credish_module.c on keys and strings.
-- - PyObject: the conversions of Python objects to strings and tagged values.
-- - Hash: the commands of hash.c; Hash/Fields and Hash/Removal for those that write, Hash/Queries
--   and Hash/Listing for those that read, Hash/Tags for the type tag of a value.
-- - ListCommands: the list commands of credish_module.c, over Adlist.
-- - SortedSet: the commands of sorted_set.c. SortedSet/Commands for those that write,
--   SortedSet/Queries for those that read; SortedSet/Adds has the invariant `IsZset`, that the
--   dictionary and the skip list of a sorted set agree, SortedSet/Loops, SortedSet/Reads and
--   SortedSet/ByScore relate the commands' loops to the list of its items.
-- - Counters: INCRBY of credish_module.c and HINCRBY of hash.c.
-- - Replay: the replay of the append-only file by persistence/aof.c, Replay/Load for its loop;
--   Replay/Session has the commands of a session as steps, Replay/Logged and Replay/Recovery what a
--   load makes of the file of a session.
-- - Rdb: the numbers, strings, lists and hashes of a snapshot of persistence/rdb.c, as they are
--   written and read.
-- - Expire: one sweep of a database, as the background thread of expire.c makes it.
-- A command calls Db, which calls Dict over Keys; a hash is itself a dictionary over Keys. Every
-- function of the model has the name of the function of the source that it models; helpers that
-- stand for a loop or a branch are named for it.
--
-- How the code is modelled. State is passed explicitly: a function that mutates a structure returns
-- the new one, paired with the result. A pointer to an entry of a bucket is the list from that entry
-- on. A write to a hash or a list through its pointer puts the new one back in its entry of the key
-- space. The nodes of a list stand in a store by address, and a pointer is an address or none; an
-- access through a pointer to no node is a fault, which the theorems exclude. The clock is an
-- argument: a time in milliseconds, or for a command that reads it more than once a function from
-- the number of the read to the time. The results 0 and -1 are Booleans or an `Option`. Where a
-- conversion has set an exception and the command returns a value all the same, Python raises, and
-- the reply is `raised`. A byte is a natural number; 32-bit and 64-bit wrap-around is written out
-- where the source relies on it (the lengths of sds.c, the hash), and the hypotheses on sizes say
-- where it cannot occur. The index of a rehash has no bound here; it is of type `int` in the source,
-- which differs beyond 2^31 buckets only.
--
-- A double is a parameter: a type with its zero, its comparison, which is a total order on the values
-- that are not NaN, and its sum, which is none where it is NaN. The results of `rand` are arguments.
--
-- Fuel. `next_power` runs for its argument's number of rounds and `sds_grow` for the needed size,
-- since each round doubles a positive number; the search for a bucket that is not empty runs for
-- the size of the table; `dict_iter_next` for the number of buckets of both tables and three more.
-- Printing a number runs for one round more than the number. The loops of a sweep run for the bounds
-- that the source gives them. The loop that reads the append-only file runs for the length of the
-- file, since each round reads a character. A walk along a level of a skip list, and the loops of
-- ZRANGEBYSCORE, run for the length of the list.
--
-- Not modelled. Allocation is taken to succeed, and memory is not freed. Locks, threads and files
-- are left out: a command is one step on the selected database. The commands take the bytes that
-- Python objects are converted to; what CPython makes of bytes is named by the function called.
-- The deadlines of SET and the sums of a replay are integers without a bound; a deadline of EXPIRE or
-- PEXPIRE and a sum of INCRBY or HINCRBY out of the range of a `long long` is a fault. Integer sets, the buffer pool, the thread that repeats the
-- sweep, and of snapshots sets, sorted sets, deadlines and the loops over the databases are left out;
-- the replay of sorted sets is an argument of the replay. A file is its bytes.
mod Prelude
pub mod Sds
pub mod Skiplist
pub mod Dict
pub mod Keys
pub mod Adlist
pub mod Object
pub mod Db
pub mod Aof
pub mod PyObject
pub mod Commands
pub mod Hash
pub mod ListCommands
pub mod SortedSet
pub mod Counters
pub mod Replay
pub mod Rdb
pub mod Expire

-- ===== src/Lib.antt =====
-- The IOTech C utilities: typed data with maps, vectors, queues, a scheduler, a thread pool, components
-- and codecs.
--
-- Files and what they model (paths are from the root of the repository):
--   Base64      src/c/base64.c: `iot_b64_encode` and `iot_b64_decode` with their size functions.
--   Data        src/c/data.c and include/iot/data.h: a value of any type and the hash of one just built.
--               Data/Compare holds `iot_data_compare`, `iot_data_compare_value` and `iot_data_equal` over
--               the values and the hashes their objects keep, whatever these are, Data/Cast the casts
--               between integer types, Data/Dimensions the shape of nested vectors
--               (`iot_data_vector_dimensions`).
--   Cbor        src/c/data-cbor.c: the writer with its growing buffer; Cbor/Reader the reader over the
--               items of a decoder; Cbor/Decoder a decoder of the format (RFC 8949) for the items
--               the reader can take, as a specification; of the simple values it takes the assigned ones.
--   Json        src/c/data-json.c: the writer with its string buffer, whose functions are in src/c/data.c;
--               Json/Reader the reader over tokens; Json/Tokens the tokens of the text of a value, from the
--               place of each part in it.
--   Config      src/c/config.c: the substitution of environment references and the typed reads of a
--               configuration map; Config/Getters the typed getters of src/c/data.c.
--   Container   src/c/container.c: the components by name, loaded on demand through their configuration,
--               with the order of the calls at start and stop.
--   Logger      src/c/logger.c: levels, references and chains of loggers; a message is the list of the
--               loggers that take it.
--   Order       src/c/data.c: the order on keys that `iot_data_cmp` gives, as an interface, which
--               Data/Compare/Laws fills for the values without floats.
--   RbTree      src/c/data.c: the red-black tree of `iot_node_t`: search, insertion, removal, rotations,
--               balancing. RbTree/Remove holds removal, RbTree/Depth the links a search follows.
--   Map         src/c/data.c: `iot_data_map_t` over that tree: add, remove, merge, lookup, the cached
--               hash, iteration.
--   Vector      src/c/data.c: `iot_data_vector_t`: add, resize, compact, the cached hash, iteration.
--   DataList    src/c/data.c: `iot_data_list_t`, with the length in its head element, and its
--               iterator (DataList/Iterator).
--   Queue       src/c/queue.c: the bounded queue over that list.
--   Component   src/c/component.c: states and reference count; Component/Read a component as data.
--   Scheduler   src/c/scheduler.c: the queue of schedules by start time, the idle map, the operations on
--               schedules and a pass of the scheduler thread.
--   Threadpool  src/c/threadpool.c: the job queue, the threads and the callers, step by step.
--   Hash        src/c/hash.c: the two forms of the string hash.
--   Time        src/c/time.c: `iot_time_nsecs`.
--   Uuid        src/c/uuid.c and src/c/util.c: printing a UUID, and the test for its form.
--   Sorted      the abstract view of a map, a list of entries sorted by key.
--   Common      shared names, lists over native numbers, tests, integers, bit operations.
--
-- A node with its parent link is a subtree with the path of frames to the root: following `parent`
-- takes a frame off, `map->tree` is the whole put together. `none` in the tree code is the read of a
-- field through NULL. An `assert` that a caller has to meet is a hypothesis or the type of an argument.
-- Integers of fixed width that can wrap are reduced with `% 2 ^ w` where the code stores them.
--
-- Loops are structural, on the input, on the tree or on the path. `remove_balance` runs on fuel, two
-- more than the length of the path, as a round moves up the path and a red sibling lengthens it by
-- one at most once; `visit` runs on the number of entries, `vector_visit` on one more than the size.
-- `pad_loop` runs at most three rounds, since the length modulo 4 grows in each. `free_start` runs
-- on one more than the length of the queue, as each round that goes on meets another schedule.
-- `decode_item` and `value_from_json` run on the depth of nesting. `substitute` runs on one more
-- than the length of the string and `unescape` on the length of the token, as each round takes a
-- character. `find_component` runs on one more than the number of names in the configuration of the
-- container, as a load inside another is for a name that is not being loaded. `va_log` and
-- `logger_free` run on the length of a chain. `digits` runs on 20, which is how many digits a number
-- of 64 bits has.
--
-- Concurrent code is a relation on states: each part that holds the mutex is one step, in any order. A
-- wait on a condition is a turn that ends with nothing done, and its caller takes another turn later.
-- The thread pool counts the threads in each wait, so that lost wakeups can be stated.
--
-- Not modelled: ownership and the freeing of data, its block allocator and its reference counts;
-- casts from and to floats; the callbacks of a scheduler; the XML and YAML forms of data; the parts
-- of the repository that are input and output (src/c/file.c, src/c/store.c, the output of
-- src/c/logger.c, src/c/os.c, src/c/thread.c) or third-party code (src/c/yxml.c, the tokenizer in
-- src/c/json.c, src/c/cunit). Floating point arithmetic is a parameter, `Floats`; the hash of a key
-- or a value is one for Map and Vector, `Hashed`; the loader of the CBOR library and its conversion
-- of half precision floats are parameters of the reader; so are the tokenizer, `c32rtomb`, `strtod`
-- and the printing of floats for JSON, and `getenv` for the configuration.
pub mod Base64
pub mod Cbor
pub mod Common
pub mod Component
pub mod Config
pub mod Container
pub mod Data
pub mod DataList
pub mod Hash
pub mod Json
pub mod Logger
pub mod Map
pub mod Order
pub mod Queue
pub mod RbTree
pub mod Scheduler
pub mod Sorted
pub mod Threadpool
pub mod Time
pub mod Uuid
pub mod Vector

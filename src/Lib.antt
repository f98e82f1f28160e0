-- ===== src/Lib.antt =====
-- cornelich: a C++ library that writes and reads VanillaChronicles, append-only logs of excerpts
-- in memory-mapped files.
--
-- The program and this library. Paths are those of the repository.
-- * An appender (cornelich/excerpt_appender.cpp; ExcerptAppender) opens an excerpt in a data
--   file, lets the client write fields into its buffer (cornelich/formatters.h; Formatters), and
--   closes it: the length goes in front of the excerpt, complemented, and an entry goes into an
--   index file.
-- * A tailer (cornelich/excerpt_tailer.cpp; ExcerptTailer) takes an index apart into a cycle, an
--   index file and a slot, follows the entry there to a data file, and opens the excerpt.
-- * The index files (cornelich/vanilla_index.cpp; VanillaIndex) are rows of 64-bit slots, which
--   appenders fill by a compare-and-swap: Slots models `append(region &, …)` and
--   `count_index_entries` on one region, Race the same with any number of appenders interleaved
--   at their accesses (as ExcerptAppender.Publishing does for `set_last_written_index`), Mapped
--   `index_for` and `append(cycle, …)`, Scan the questions that are answered by listing
--   directories, and LastIndex `vanilla_chronicle::last_index`.
-- * The data files (cornelich/vanilla_data.cpp; VanillaData) belong to a cycle and a thread:
--   Numbers models `find_next_data_file_number`, and Mapped `data_for`.
-- * A chronicle (cornelich/vanilla_chronicle.cpp; Chronicle) derives shifts and masks from its
--   settings (cornelich/vanilla_chronicle_settings.cpp; Settings). Chronicle.Packing has the
--   arithmetic of indices and entries, which the appender and the tailer share.
-- * Delivery joins the two ends: an excerpt from `start_excerpt` and `finish` of an appender to
--   `index` and the readers of a tailer. Its modules use what World says of the shared state
--   (Keeps and Mapping: regions that stay mappings of their files; Lookup and Consistent: the
--   caches of `index_for` and `data_for`; Sane: positions; Writes and Onward: the steps of an
--   appender).
-- * Below these: mapped regions (cornelich/region.cpp; Region, with the bytes in Memory), the
--   file system (cornelich/vanilla_utils.cpp, cornelich/util/files.cpp; Files), the cache of
--   regions (cornelich/util/cache.h; Util.Cache), the spin lock (cornelich/util/spin_lock.h;
--   Util.SpinLock), stop bits (cornelich/util/stop_bit.cpp; Util.StopBit), the view of an excerpt
--   (cornelich/util/buffer_view.h; Util.BufferView) and shifts (cornelich/util/math_util.h;
--   Util.MathUtil). World is the state that the objects of a process share: the files, the
--   regions and the two caches. Common has what all modules share, and Tests runs of the
--   definitions.
-- * The formatters of dates (cornelich/vanilla_date.cpp; VanillaDate) turn cycles into the names
--   of folders and back, and keep the dates printed last in an array (VanillaDate.Cached).
-- * A client writes into the buffer of its appender and reads from that of its tailer: the
--   `write` and `read` templates on the memory of a region are ExcerptAppender.Write and
--   ExcerptTailer.Read. Samples (cornelich_sample) has the programs that do so, with the threads
--   of ping.cpp and pong.cpp, and Scenarios (cornelich_test) the two tests that run over a whole
--   chronicle and the excerpts that the other tests write.
-- * Util.Thread (cornelich/util/thread.cpp), Util.Streamer (cornelich/util/streamer.h and the
--   printing operators) and Util.TestHelpers (cornelich/util/test_helpers.h) are the rest of
--   cornelich/util, and World.Clients makes the objects of a chronicle.
--
-- How the code is modelled. A machine word is its bit pattern, a number below 2 ^ 32 or 2 ^ 64,
-- with signed comparison and wrapping written out; the counters of files and cycles wrap too
-- where the signed sum of C++ would overflow, but for the number of the next data file. A call
-- returns an `Outcome`: `ok`, an exception, `undefined` where C++ gives no meaning (an access
-- outside a mapping or a buffer, a failed `assert`, a division by 0, a data file number behind
-- the last std::int32_t), or `out_of_fuel`, which is no behaviour of the code. A method that
-- changes an object returns the changed object; a `region_ptr` is the place of a region in the
-- shared state, so that the objects that hold it see one position. The bytes of a region belong
-- to its file, so that two mappings of a file see one memory.
--
-- Loops. `write` of the stop bits is recursion on an accessible number, and the loops through
-- lists and directories are structural. `append` and `count_index_entries` have a round for each
-- slot of the region and one more, which is what an empty region takes. `append(cycle, …)` has
-- 10002 rounds, one for each file number from -1 to 9999 and one to fail. `next_index` has a
-- round for each std::int32_t, which may be its cycle, and one more, and reads the clock in each.
-- The loops of samples and tests have the rounds whose times they are given.
--
-- Parameters. For the index and data files the conversions between cycles and names of folders,
-- and between numbers and text, are fields of an `Environment`; theorems that need printed
-- numbers to be read back take `NumeralLaws`. VanillaDate models the conversions of the
-- formatters: the calendar (contrib/date), the printing of padded numbers and the parsing of
-- numbers (boost::spirit) are a `DateLibrary`, of which theorems ask `DateLaws`, and std::hash is
-- a function. The base-2 logarithm, the count of leading zeros, the clock, the thread id and the
-- provider of a cache are arguments.
--
-- Not modelled: weaker memory orders than sequential consistency, the destruction of regions,
-- failures of the disk, the text of messages as the standard library prints it, the measuring of
-- run times and the command lines of the samples, the unit tests (main.cpp of cornelich_test and
-- those of single functions), and the third-party code (contrib).
pub mod Common
pub mod Util
pub mod Memory
pub mod Region
pub mod Settings
pub mod Chronicle
pub mod Formatters
pub mod Files
pub mod Environment
pub mod World
pub mod VanillaIndex
pub mod VanillaData
pub mod ExcerptAppender
pub mod ExcerptTailer
pub mod Delivery
pub mod Tests
pub mod VanillaDate
pub mod Samples
pub mod Scenarios

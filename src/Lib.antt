-- ===== src/Lib.antt =====
-- btui: a model of binlog, a structured binary logger, and of btui, a log viewer in a terminal.
--
-- Producers log through a SessionWriter, which serializes an event into the queue of its channel. A
-- Session owns the channels and the metadata and moves both to an output as a stream of entries. A
-- reader takes the entries from an EntryStream, an EventStream decodes them to events, and the
-- viewer's model turns these into records, which it filters and sorts for the window.
--
-- Files, and the code that each is about:
--   Prelude           shared helpers: numbers, Boolean tests, lists, words of 64 bits, integers
--   Queue             include/binlog/detail/Queue.hpp, QueueWriter.hpp, QueueReader.hpp. A position
--                     in the buffer is an index; `Producer` is a queue with its writer. Concurrent
--                     has the two threads as steps between their loads and stores (`load_read`,
--                     `maximize` are maximizeWriteCapacity; `load_write`, `view` are beginRead)
--   SegmentedMap      include/binlog/detail/SegmentedMap.hpp (emplace, find, size)
--   Result            a value or an exception
--   Range             include/binlog/Range.hpp (read, view), and numbers as little endian bytes
--   EntryStream       include/binlog/EntryStream.cpp; a std::istream is content, position and state
--   Severity, Entries include/binlog/Severity.hpp and Entries.hpp; an entry's serialize and
--                     deserialize are fields of the interface `Entry`
--   EventStream       include/binlog/EventStream.cpp (nextEvent is `next_event`; what a call leaves
--                     on a throw is part of its result)
--   SessionWriter     include/binlog/SessionWriter.hpp (addEvent, replaceChannel)
--   Session           include/binlog/Session.hpp (consume, reconsumeMetadata, ...)
--   Tags              include/mserialize/detail/tag_util.hpp
--   Visitor           include/binlog/ToStringVisitor.cpp
--   Visit             include/mserialize/detail/Visit.hpp and Singular.hpp with this visitor, and
--                     Hex the hexadecimal numbers of enums. Values has serialized values: their
--                     tags, their bytes and what they print; Tags, Whole, Steps and Singular
--                     are lemmas
--   Serialize         include/mserialize/serialize.hpp, detail/Serializer.hpp and StructSerializer.hpp:
--                     the C++ types that can be serialized are data (`CppType`), `Object t` has the
--                     objects of such a type; Deserialize and Tag are deserialize.hpp and tag.hpp with
--                     the macros that make tags, Shown is what an object is shown as
--   EventFilter       include/binlog/EventFilter.hpp (writeAllowed)
--   Time              include/binlog/Time.cpp
--   OstreamBuffer     include/binlog/detail/OstreamBuffer.cpp
--   PrettyPrinter     include/binlog/PrettyPrinter.cpp (printEvent, printEventMessage, printStruct,
--                     printTime, ...); Names has its strings
--   Printers          include/binlog/TextOutputStream.cpp, and bin/printers.cpp
--   GetOpt, Bread     bin/getopt.cpp and bin/bread.cpp: the options, and main
--   BtuiMain          bin/btui.cpp: the options, and main up to the window
--   RecoverableStream include/binlog/detail/VectorOutputStream.hpp
--   Recovery          bin/brecovery.cpp: the search of a memory dump; Scan has the layout in which
--                     Session::Channel puts a queue into memory, Output is the sorted output
--   Text, Model       bin/btui_model.cpp; Load has loadFromEntryStream
--   App               bin/btui_app.cpp: the key handler, clamping, the tail thread's start and stop
--
-- Numbers are natural numbers with the wrap-around of 64 and 32 bits written out; a signed field is
-- kept as its bits. Strings are lists of bytes. A failed assertion is `none`, an exception `throw`;
-- in Serialize and in printTwoDigits assertions are off, and in Serialize a size is cut to 32 bits.
--
-- Fuel: `next_event`, the loops of the printers and `load_from_entry_stream` take fuel for their
-- loops and return `none` when it runs out. One unit more than the bytes that are left in the stream
-- is enough for each, since each round takes at least four bytes. The search of a dump and the
-- printing of a stream of entries have one unit more than the bytes; the options of bread one more
-- than there are. The loops over a tag, over the characters of `write`, and over the entries of a
-- recovered buffer have one round for each character, which each of their rounds takes at least one
-- of; `resolve_recursive_tag` too, whose rounds each drop the name they look for. The visit of a
-- value has the recursion limit of the source, 2048.
--
-- Parameters: the memory that a new channel gets (`Allocator`), the serialized arguments of an event
-- (the byte strings that mserialize writes), the pretty printers of the viewer's model (`Printer`),
-- what snprintf writes for a number and gmtime_r for a time (`Platform`), what a visit prints for a
-- number (`NumberPrinter`) and a struct (`StructPrinter`), the predicate of the event filter, the
-- capacity of a vector that has grown, what the insert of a set or map does (`Insert`), for bread
-- and btui the C library's getopt (`GetOpt`), the help text, the files and the standard input, and
-- std::sort for the recovered buffers (`Sort`, which permutes and sorts, by `Sorts`).
--
-- The size of an event and twice that size are not cut to 64 bits in SessionWriter.
--
-- Not modelled: drawing, files and the tail thread's polling; memory orders weaker than sequential
-- consistency; overflow of signed 64 bit integers; a failing allocation or write; the type traits of
-- mserialize, which choose between its cases when a program is compiled, its setters and getters of
-- members, and the macros of the log; the arguments of brecovery, and what goes to the standard
-- error.
pub mod App
pub mod Bread
pub mod BtuiMain
pub mod Entries
pub mod EntryStream
pub mod EventFilter
pub mod EventStream
pub mod GetOpt
pub mod Model
pub mod OstreamBuffer
pub mod Prelude
pub mod PrettyPrinter
pub mod Printers
pub mod Queue
pub mod Range
pub mod RecoverableStream
pub mod Recovery
pub mod Result
pub mod SegmentedMap
pub mod Serialize
pub mod Session
pub mod SessionWriter
pub mod Severity
pub mod Tags
pub mod Text
pub mod Time
pub mod Visit
pub mod Visitor

-- ===== src/Lib.antt =====
-- A model of blockad, the daemon that watches logfiles and blocks the addresses that it detects too
-- often in them, with the theorems that show what its parts do.
--
-- `main` (src/blockad.cc) reads a configuration, keeps one watcher for each logfile of it, and hands
-- each line that appears in a logfile to `processLine`. A line that matches a pattern of the
-- configuration is a detection of the address in it; an address that is detected more often than the
-- rate allows is given to the block method. SIGHUP makes the daemon read its configuration anew.
--
-- The files, and the code that they model:
--   Common     lists, bytes, integers and exceptions, which all parts share
--   Platform   what the C library and the kernel are asked for, as an argument
--   Strtol     `strtol` in base 10, on a machine with a `long` of 64 bits
--   Address    src/Address.h, src/Address.cc: `Address` and `AddressPattern`
--   Lexer      src/ConfFile.cc: `splitLine`, `parseString`, `SyntaxError::format`
--   BlockMethod  src/BlockMethod.cc, src/hosts.deny.cc, src/iptables.cc
--   IoError, StdioFile  src/IOError.cc, src/StdioFile.cc: the characters that are read;
--              StdioFile/Handles has the streams that the objects own
--   Regex      src/Regex_.h, src/Regex.cc: `compile`, `captures`, `execute` on values; Regex/Handles
--              has the reference counts of copies, assignments and destruction
--   ConfFile   src/ConfFile.cc: `parseLine`, `parse` and the constructor
--   Detector   src/blockad.cc: `BlockingWatcher` and `AddressData`
--   Daemon     src/blockad.cc: `updateWatchers`, and reloading in `main`; Daemon/Start has `main`
--              until its first wait, Daemon/Reach the states that it reaches
--   LogFile    src/WatcherImplementation.cc and src/PollingWatcher.cc: reading a logfile;
--              LogFile/Streams has the streams that watchers own, and the destructors
--   Inotify    src/InotifyWatcher.cc: reading a logfile on events of the kernel
--   Loop       src/blockad.cc: a turn of the inner loop of `main`, over watchers behind an interface
--              that LogFile and Inotify fill; Loop/Signals has the pipe of signals
--   System     src/blockad.cc: `main` as a whole, from its start over its turns and reloads, with the
--              objects of the watchers
--   Timeval    src/timeval.h
--   Nonblock   src/nonblock.cc
--   Execute    src/execute.cc: running a command, with the calls that it makes
--   Log        src/log.h, src/log.cc
--   Tests      a concrete C library, and the examples
--
-- Strings are lists of bytes. A function that may throw returns a `Result`; an exception is a
-- constructor of `Exception`, which tells the classes below `std::runtime_error` from
-- `std::out_of_range`, since `main` catches only the former, and has undefined behaviour as one more;
-- that one also stands for used up fuel.
-- What the system answers is an argument: the functions of `Platform`, the answers to opening and
-- appending to a file, the status of an executed command, the clock. `InetLaws` states of inet_pton
-- and inet_ntop that a success fills all bytes and that what is printed is read back.
--
-- `splitLine` and the string loop in it run on fuel, the length of the line, and `parse` on fuel, the
-- length of the file and one more: every turn reads a character. The loop over the events of a buffer
-- runs on the length of the buffer, since an event has 16 bytes at least, and the loop over the lines
-- of a command's output on the length of the output. All other loops are structural; those that go on
-- while a call is interrupted are given the interruptions that come before its last answer.
-- Subtraction of times is moved to the other side of the comparison in Detector, as the code's is
-- signed; Timeval has integers.
--
-- Not modelled: the moment at which a signal comes, so that a turn is told by `select` whether the pipe
-- of signals is ready; messages of `main` that are no errors; `fork`, `exec`, `daemon`, `getopt` and
-- the other calls into the system, of which only the answers are seen; the test programs and the
-- packaging.
pub mod Common
pub mod Platform
pub mod Strtol
pub mod Address
pub mod Lexer
pub mod BlockMethod
pub mod IoError
pub mod StdioFile
pub mod Regex
pub mod ConfFile
pub mod Detector
pub mod Daemon
pub mod LogFile
pub mod Log
pub mod Execute
pub mod Inotify
pub mod Timeval
pub mod Loop
pub mod Nonblock
pub mod System
pub mod Tests

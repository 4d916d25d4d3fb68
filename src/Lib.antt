-- ===== src/Lib.antt =====
-- adbfs mounts the files of an Android device: a FUSE file system that runs shell commands on the
-- device through `adb`. This library models the program, file by file, with theorems about its
-- parts.
--
-- The parts and how they work together. A request of the kernel reaches a handler of `AdbFs`
-- (src/fs.rs). It turns the inode into a path, asks the metadata cache (src/cache.rs), and otherwise
-- calls an operation on the device (src/ops.rs). That sends a command, with its paths escaped
-- (src/escape.rs), through the transport (src/adb/mod.rs), reads the lines of `ls` (src/parse.rs) or
-- the messages of a command, and returns metadata or an error that becomes an errno. Open files have
-- a local copy, one for each inode, with a count of references and a mark for changes that were not
-- pushed. Requests run on several threads; the lock of a copy and the entries of a map are what they
-- share. The `-o` options are read by src/mount_opts.rs, and src/main.rs starts the whole.
--
-- Base holds what the modules share: texts, lists, results, maps and state passing; Paths is the
-- view of device paths as lists of names. Escape, Parse, Cache and MountOpts model the source files
-- of these names; Errno and Adb the error numbers and src/adb/mod.rs, with Cli for src/adb/cli.rs
-- and Mock for src/adb/mock.rs; Startup src/main.rs and what `mount` of src/fs.rs sets up (Daemon:
-- `daemonize`, Mount: `mount`); Ops models src/ops.rs (Messages: the readers of messages, Device:
-- the commands that print nothing, Listing: `get_metadata`, `list_dir` and `resolve_symlink`, Touch:
-- `touch`); Fs models src/fs.rs (State: `AdbFs` and its parts, Inodes: the two maps of inodes, Attr:
-- `meta_to_attr`, Metadata: `fetch_meta`, Copies: `acquire_copy`, `release_copy` and
-- `push_if_dirty`, Handlers: the handlers of the trait `Filesystem`). Fs.Threads cuts `acquire_copy`
-- and `release_copy` where another thread can come between: Program has the places of a thread, Code
-- the parts that run without a break on the whole state, with the steps of other handlers, Protocol
-- what these do to counts, marks and map, and Alone the two functions as runs of the parts. A thread
-- there is one use of a copy, from `acquire_copy` to the end of `release_copy`, so a worker of the
-- session with several open handles counts as several. Fs.Inodes.Interleaved cuts
-- `get_or_assign_ino`, and Fs.Pushes the steps of `write` and `push_if_dirty` on one copy, with
-- Alone for a call without another thread in between. Fs.Sound is about the tables of handles and
-- copies behind whole requests: Tables says when they agree, Opened what the files of the handles
-- are, Requests serves any list of requests, and Base.Triples has the conditions before and after a
-- call. A definition has the name of its function; a handler named by a word of the language has
-- another one (`open_file` for `open`). Child modules hold the proofs, Examples the theorems at
-- concrete inputs, and UnitTests the tests that stand in the source files.
--
-- How it is modelled. A `String` is the list of its characters' code points; where the code counts
-- or cuts bytes, they are those of UTF-8. Machine integers are natural numbers with their
-- wrap-around written out, as in a release build. Stateful code passes its state on and returns a
-- result: a value, an error, or a panic. A `DashMap` is an association list, an `Arc<LocalCopy>` an
-- address in a map of copies. The device, the local file system, the clocks and the C library are
-- records of functions over an abstract type of worlds, and parameters of what uses them. Names of
-- directory entries are given as the text that `to_string_lossy` makes of them.
--
-- Fuel. `touch` has two rounds: the second one runs in the mode in which it does not call itself
-- again. The loop of `acquire_copy` has one round where a call runs alone: it starts over only when
-- another thread evicts the copy in between; the threads of Fs.Threads go around it without fuel.
-- The decimal printing of a number has as much fuel as the number is large.
--
-- Not modelled: the inside of the session behind `mount`, the parsing of the arguments by `clap`,
-- and the logging, which are calls of libraries; the panics that poison a lock. The handlers as
-- wholes run one after the other: of the interleavings of threads, those of references to local
-- copies, of writes and pushes of one copy and of the assignment of inodes are modelled, each by
-- itself. A push is taken to begin and to end; what it leaves on the device when the local file
-- changes in between is arbitrary. Floats do not exist here: reading a number of seconds in
-- src/mount_opts.rs is a parameter.
pub mod Base
pub mod Paths
pub mod Escape
pub mod Parse
pub mod Cache
pub mod MountOpts
pub mod Errno
pub mod Adb
pub mod Ops
pub mod Fs
pub mod Startup
pub mod Examples
pub mod UnitTests

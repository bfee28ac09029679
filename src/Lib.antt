-- ===== src/Lib.antt =====
-- safs, a FUSE file system in C, and the examples hellofs, bbfs and ramfs that lie beside it.
--
-- The program. safs (safs.c) keeps a flat file system below /tmp/safs: Directory~ is an array of
-- fixed-size entries (name, storage, inode number), Inodes~ an array of `struct stat` by inode
-- number, and each name that mknod made has a data file. FUSE calls the handlers of the table
-- safs_oper. Every handler opens Directory~, searches it from the start, and works on the tables
-- and on the data file through system calls. `inode_number`, a global, is the number and the
-- slot of the next file. hellofs (fuse-examples/hellofs/hello.c) shows one constant file. bbfs
-- (fuse-examples/bbfs/src/bbfs.c) passes every request on to the host, below a root directory.
-- ramfs (fuse-examples/ramfs/fuse-test.cpp, C++) keeps files in memory, in a std::map from names
-- to std::maps from positions to bytes. The four programs share no code.
--
-- The files.
--   Base        shared names: tests, lists over native numbers, C integers, C strings, dictionaries
--   Disk        the tables and data files; `struct stat` and the entry structures of safs.c
--   Posix       the system calls that safs.c makes, as commands on the world: Posix/Tables
--               on the tables, Posix/Data on the data files; Posix/Errno the
--               constants, Posix/Kept and Posix/Frame what calls leave alone, Posix/Keeps the rules
--               by which a command preserves a predicate
--   Safs/Find        the search loop that the handlers repeat, and its specification
--   Safs/Inode       read_inode, write_inode
--   Safs/Attributes  safs_getattr, safs_chmod, safs_chown, safs_setattr, safs_utimens
--   Safs/Contents    safs_open, safs_read, safs_write, safs_truncate, safs_ftruncate
--   Safs/Names       safs_mknod, safs_rename, safs_link, safs_unlink
--   Safs/Listing     safs_readdir
--   Safs/Start       safs_init, main
--   Safs/Server      the table safs_oper as one function on requests, and sequences of requests;
--               below it their inode numbers and descriptors, requests for unknown names, and
--               requests while there is no Directory~
--   Safs/Rules       what an invariant has to promise of each system call, so that every handler keeps
--               it; Safs/Numbers and Safs/Stored fill it
--   Safs/Stored      the entries in use and their inodes
--   Safs/Apart       what requests for a file leave of the others
--   Safs/Spec        what safs promises: states without slots and tables, and Safs/Spec/Step the
--               requests as steps between them; below it the handlers as such steps
--   Safs/Named, Safs/Numbers   when a path names a file, and the inode numbers in use
--   Safs/Tests       the theorems at work on a disk with two files
--   Hello            the handlers of hello.c
--   Bbfs             what the handlers of bbfs.c share; Bbfs/Handlers those on paths, Bbfs/Open those
--               on open files, Bbfs/Server the table bb_oper, Bbfs/Start main, log_open of log.c and
--               bb_readdir
--   Bbfs/Log         log.c with the macro of log.h; Bbfs/Log/Printf the conversions that it uses,
--               Bbfs/Log/Scan and Bbfs/Log/Lines the way back from the text, Bbfs/Log/Session bb_init,
--               bb_destroy and the loop that logs the names of attributes
--   Ramfs            the handlers of fuse-test.cpp; Ramfs/Refused those that refuse or grant all,
--               Ramfs/StdMap std::map with its laws, Ramfs/Keys the orders of its keys,
--               Ramfs/Server the table ramfs_oper, Ramfs/Spec what a file system in memory promises,
--               Ramfs/Refines the two side by side, Ramfs/Numbered the files without gaps
-- A module X/Calm says what the handlers of X do where no system call fails, X/Frame what they
-- leave alone whichever calls fail.
--
-- How the code is modelled. A handler is a command: a function of the world (disk, inode_number,
-- number of open descriptors, errno, count of system calls) to its result and the next world. An
-- `int` result is an integer; the other results (the stat of getattr, the bytes of read, the
-- calls of readdir's callback) stand beside it. Which system calls fail, and with which errno,
-- is decided by an arbitrary function of their count, a field of the environment; the
-- environment `calm env` lets none fail. Every loop of safs runs over the records of a table, so
-- no fuel is needed. The handlers of bbfs.c get the host as a parameter, a function from a call
-- and a state of the host to an answer and the next state, and record which calls they make. Its
-- readdir gets the names that the directory stream has still to give. The log of bbfs is the
-- text of its file; a loop over a buffer there runs on fuel, which the number of bytes bounds.
-- The map of ramfs is a list of entries in the order of their keys, and a handler a function of
-- it.
--
-- What the model assumes. The tables are read and written by whole records; their files hold
-- nothing else, and no other process touches them. A write writes all its bytes or none. close
-- frees its descriptor also where it reports an error; clock_gettime does not fail; mkdir counts
-- for its result only. A path is a C string that begins with "/". Sizes and offsets of type
-- off_t are kept as 64-bit patterns. What the uninitialised `struct stat` locals hold is a field
-- of the environment. The field `outside` of the world is set when a run leaves the model: a
-- name that overflows a char array, a file name below /tmp/safs that is no plain name, a table
-- opened as a data file, an int that overflows. It is never taken back (Safs/Server/Inside); the
-- theorems on sequences of requests whose calls may fail, but for those on descriptors and on a
-- missing Directory~, ask that it is not set at the end, since of what follows the host's tables
-- could hold anything. An `int` counter of ramfs that overflows gives the reply `undefined`.
-- sizeof(struct stat) is a field of the environment, and the theorems that write an inode ask
-- that its byte offset fits an `int`, as write_inode keeps it.
--
-- Not modelled. The printf traces of safs; fuse_main, a parameter of `main`; the permission
-- checks of the host on /tmp/safs; the messages that the handlers of bbfs log on their way, and
-- its copy of fuse.h, a header of the FUSE library; params.h, feature macros; the messages of
-- ramfs to cout; build files and documentation.
pub mod Base
pub mod Disk
pub mod Posix
pub mod Safs
pub mod Hello
pub mod Bbfs
pub mod Ramfs

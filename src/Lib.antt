-- ===== src/Lib.antt =====
-- usvfs-fuse: a file system in user space that shows the files of several directories in one place.
--
-- The parts and the files that model them:
--   src/virtualfiletreeitem.h, .cpp  the tree of files        Tree, Tree/...
--   src/utils.h, .cpp                texts and paths          Utils, Utils/...
--   src/fdmap.h, .cpp                directory descriptors    FdMap, FdMap/Laws
--   src/mountstate.h                 one mount                Mount
--   src/usvfs.cpp                    the FUSE handlers        Fuse, Fuse/...
--   src/usvfsmanager.cpp             what is to be mounted    Manager, Manager/...
--   src/logger.h, loghelpers.cpp     the log                  Log, Log/Calls
-- Base holds what they share; Kernel the system calls, as a parameter; Tests the theorems at concrete
-- inputs.
--
-- The tree. `VirtualFileTreeItem` is `Item`: its name, real path, type and mark of deletion
-- (`Info`), and its map of children (`Entries`, in the order of the lower-cased keys). A shared
-- pointer to an item below a root is the list of keys that leads to it (`Found`), and a write through
-- the pointer is `modify`. The parent pointer is the way back. `view t ks` is the record behind the
-- keys `ks`; the theorems on `add`, `erase` and `operator+=` say what they do to the view of every
-- path. `IsOrdered` says that the maps are in order, as `std::map` keeps them. Each operation holds a
-- lock while it runs, and is one step here.
--
-- Texts are lists of bytes. What ICU does with texts that are not ASCII is a parameter (`Icu`), so
-- the theorems that speak of the names of a path are about ASCII paths.
--
-- The handlers are functions from the context that libfuse passes to the returned number, the bytes
-- written for the caller, and the context afterwards. In `Context`, `mount` is what `getState`
-- finds and `world` is the machine, on which `run` does a system call. A handler makes the system
-- calls in the order of the source, and a failed call has its errno in its reply. Log output is left
-- out, and is taken to leave errno alone. `broken` stands for an end of the program, undefined
-- behaviour, or a null pointer left in the tree.
--
-- `Request` has the operations that `createOperations` gives to libfuse, and `handle` is the handler
-- of each. `Reaches` is the relation between a context and one that it comes to by requests, with
-- other processes changing the machine in between. A tree is sound (`IsSound`) where its maps are in
-- order, the root is a directory, and every other item stands under its lower-cased name, which is
-- ASCII, not empty and without slashes. Tree/Store
-- describes the tree for its callers: a function from the keys of a path to a record, and what
-- `add`, `erase` and `find` do to it.
--
-- Fuel. The recursions of `findInternal`, `addInternal` and `eraseInternal` are on the path. Their
-- models have fuel, one more than the bytes of the path; each step takes a slash off the path, so
-- it is enough (Tree/Fuel).
--
-- The manager. `UsvfsManager` is its state; an operation returns the state, and those that open
-- directories the machine too. The walk over a directory of the disk and the parts of a
-- `std::filesystem::path` are a parameter (`Disk`). `aborted` is an exception that leaves a `noexcept`
-- function, or a null pointer used or left in a tree. A link makes or changes a pending mount, whose
-- tree and descriptors the handlers work on once it is mounted.
--
-- Mounting and unmounting are over a parameter for the calls that make processes and for libfuse
-- (`Host`); a mount counts as made when its thread or process has reported, or has not failed in time.
--
-- `Manages` is the relation between a state of the manager and one that it comes to by links, mounts
-- and unmounts. Manager/Process is the start of a program, in the parent and in the child; `fork` and
-- the calls of the child are a parameter (`Processes`).
--
-- Manager/Child is `childFunc`, the process that a mount has of its own.
--
-- Manager/Report is the report of `run_fuse`, which runs in a thread of its own, to
-- `mountInternal`: the two as places in the code, and the turns that they take, in any order
-- (`run`). They share the status, the mutex and the condition variable of the `MountState`, and
-- its life. An `unmount` may end that life once `mountInternal` has its answer. A use of the state
-- after its end is marked. Elsewhere the two count as one step.
--
-- The manager and the handlers meet in the tree and the descriptors of a mount: Manager/Opened goes
-- from a link to the `open` of the linked file.
--
-- Not modelled: what spdlog writes, and the log of the handlers; the locks of the manager and of the
-- tree, under which each operation is one step; the stack of a mount's process; headers that only
-- declare, with constants and the documentation.
pub mod Base
pub mod Utils
pub mod Tree
pub mod FdMap
pub mod Kernel
pub mod Mount
pub mod Fuse
pub mod Manager
pub mod Log
pub mod Tests

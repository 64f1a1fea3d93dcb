-- ===== src/Fuse/Safety/Requests.antt =====
-- The requests that libfuse sends, one after the other, and what other processes do between them.
use usvfs_fuse.Base.{◌≢◌}
use usvfs_fuse.Utils.{Icu}
use usvfs_fuse.Kernel.{Kernel}
use usvfs_fuse.Mount.{Context, Outcome, broken}
use usvfs_fuse.Fuse.Io.{
  usvfs_release, usvfs_releasedir, usvfs_flush, usvfs_fsync, usvfs_fsyncdir, usvfs_symlink,
  usvfs_link,
}
use usvfs_fuse.Fuse.Request.{
  Request, getattr, readlink, mkdir, unlink, rmdir, symlink, rename, link, chmod, chown, truncate,
  open_file, read, write, statfs, flush, release, fsync, readdir, releasedir, fsyncdir, create,
  Answer, answer, handle,
}
use usvfs_fuse.Fuse.Safety.{IsPath, IsSoundMount, IsSafe, returns-ne-broken}
use usvfs_fuse.Fuse.Safety.Reads.{
  LeavesRoom, usvfs_getattr-IsSafe, usvfs_chmod-IsSafe, usvfs_chown-IsSafe, usvfs_truncate-IsSafe,
  usvfs_statfs-IsSafe, usvfs_open-IsSafe, usvfs_read-IsSafe, usvfs_write-IsSafe, closing-IsSafe,
}
use usvfs_fuse.Fuse.Safety.Changes.{
  usvfs_readlink-IsReadSafe, usvfs_rmdir-IsSafe, usvfs_unlink-IsSafe,
}
use usvfs_fuse.Fuse.Safety.Mkdir.{usvfs_mkdir-IsSafe}
use usvfs_fuse.Fuse.Safety.Entries.{usvfs_create-IsSafe, usvfs_rename-IsSafe}

-- The paths that the request's handler looks up are paths as libfuse passes them. Where a handler
-- changes nothing of the tree this is not asked for.
abbrev pub IsValid : Request → Type 0
IsValid (readlink path size) = IsPath path
IsValid (mkdir path mode) = IsPath path
IsValid (unlink path) = IsPath path
IsValid (rmdir path) = IsPath path
IsValid (create path mode fi) = IsPath path
IsValid (rename from to flags) = IsPath from × IsPath to
IsValid _ = Unit

abbrev pub IsSafeAnswer : {W : Type 0} → Answer W → Type 0
IsSafeAnswer (s, c, o) = (s ≢ broken) × IsSoundMount c.mount

-- For `readlink`, the machine's links leave room for the zero.
abbrev pub HasRoom : (os : Kernel) → Request → os.World → Type 0
HasRoom os (readlink path size) w = LeavesRoom os size w
HasRoom os _ w = Unit

answer-IsSafe :
    {W : Type 0} (o : Outcome W) (room : Type 0)
    → IsSafe o
    → (room → (answer o).0 ≢ broken) × IsSoundMount (answer o).1.mount
answer-IsSafe o room safe = ((λ _. safe.not_broken), safe.sound)

module _ (icu : Icu) (os : Kernel) where
  open os use {World, run}

  -- One step of the mount: a request is handled, or another process changes the machine.
  pub data Reaches (c : Context World) : Context World → Type 0 where
    start : Reaches c c
    handled :
        {d : Context World} (r : Request)
        → Reaches c d
        → IsValid r
        → Reaches c (handle icu os r d).1
    elsewhere : {d : Context World} (w : World) → Reaches c d → Reaches c (record d { world = w })

  -- A request leaves a sound mount, and ends as it should where there is room.
  handled-IsSound :
      (r : Request) (c : Context World)
      → IsValid r
      → IsSoundMount c.mount
      → (HasRoom os r c.world → (handle icu os r c).0 ≢ broken)
        × IsSoundMount (handle icu os r c).1.mount
  unfolding handle usvfs_release usvfs_releasedir usvfs_flush usvfs_fsync usvfs_fsyncdir
      usvfs_symlink usvfs_link
  handled-IsSound (getattr path info) c ok sound =
      answer-IsSafe _ _ (usvfs_getattr-IsSafe icu os path info c sound)
  handled-IsSound (readlink path size) c ok sound =
      let safe = usvfs_readlink-IsReadSafe icu os path size c ok sound in
      (safe.not_broken, safe.sound)
  handled-IsSound (mkdir path mode) c ok sound =
      answer-IsSafe _ _ (usvfs_mkdir-IsSafe icu os path mode c ok sound)
  handled-IsSound (unlink path) c ok sound =
      answer-IsSafe _ _ (usvfs_unlink-IsSafe icu os path c ok sound)
  handled-IsSound (rmdir path) c ok sound =
      answer-IsSafe _ _ (usvfs_rmdir-IsSafe icu os path c ok sound)
  handled-IsSound (symlink target linkpath) c ok sound = ((λ _. returns-ne-broken _), sound)
  handled-IsSound (rename from to flags) c ok sound =
      answer-IsSafe _ _ (usvfs_rename-IsSafe icu os from to flags c ok.0 ok.1 sound)
  handled-IsSound (link from to) c ok sound = ((λ _. returns-ne-broken _), sound)
  handled-IsSound (chmod path mode info) c ok sound =
      answer-IsSafe _ _ (usvfs_chmod-IsSafe icu os path mode info c sound)
  handled-IsSound (chown path uid gid info) c ok sound =
      answer-IsSafe _ _ (usvfs_chown-IsSafe icu os path uid gid info c sound)
  handled-IsSound (truncate path size info) c ok sound =
      answer-IsSafe _ _ (usvfs_truncate-IsSafe icu os path size info c sound)
  handled-IsSound (open_file path fi) c ok sound =
      answer-IsSafe _ _ (usvfs_open-IsSafe icu os path fi c sound)
  handled-IsSound (read path size offset fi) c ok sound =
      answer-IsSafe _ _ (usvfs_read-IsSafe icu os path size offset fi c sound)
  handled-IsSound (write path buf offset fi) c ok sound =
      answer-IsSafe _ _ (usvfs_write-IsSafe icu os path buf offset fi c sound)
  handled-IsSound (statfs path) c ok sound =
      answer-IsSafe _ _ (usvfs_statfs-IsSafe icu os path c sound)
  handled-IsSound (flush path info) c ok sound = ((λ _. returns-ne-broken _), sound)
  handled-IsSound (release path info) c ok sound =
      answer-IsSafe _ _ (closing-IsSafe icu os info c sound)
  handled-IsSound (fsync path sync info) c ok sound = ((λ _. returns-ne-broken _), sound)
  handled-IsSound (readdir path filler flags) c ok sound = ((λ _. returns-ne-broken _), sound)
  handled-IsSound (releasedir path info) c ok sound =
      answer-IsSafe _ _ (closing-IsSafe icu os info c sound)
  handled-IsSound (fsyncdir path sync info) c ok sound = ((λ _. returns-ne-broken _), sound)
  handled-IsSound (create path mode fi) c ok sound =
      answer-IsSafe _ _ (usvfs_create-IsSafe icu os path mode fi c ok sound)

  -- The handler of a request leaves no null pointer in the tree, does not go through one, does not
  -- write behind the caller's buffer and does not crash, and leaves the mount, if there is one, with a
  -- sound tree (its maps in order, the root a directory, and each other item under its lower-cased
  -- name, which is ASCII, not empty and without slashes). This is where the mount had a sound tree,
  -- each path that `readlink`, `mkdir`, `unlink`, `rmdir`, `create` or `rename` is called with is
  -- "/" or an ASCII path without empty names behind one leading slash, and, for `readlink`, the links
  -- of the machine are shorter than the buffer. Beyond that the system calls may answer anything.
  pub handle-IsSafeAnswer :
      (r : Request) (c : Context World)
      → IsValid r
      → HasRoom os r c.world
      → IsSoundMount c.mount
      → IsSafeAnswer (handle icu os r c)
  handle-IsSafeAnswer r c ok room sound =
      let safe = handled-IsSound r c ok sound in (safe.0 room, safe.1)

  -- Every context that is reached from one with a sound tree, by any number of requests with paths
  -- that are "/" or ASCII paths without empty names, and with other processes changing the machine
  -- in between, has a sound tree.
  pub Reaches-IsSoundMount :
      (c d : Context World) → IsSoundMount c.mount → Reaches c d → IsSoundMount d.mount
  Reaches-IsSoundMount c _ sound start = sound
  Reaches-IsSoundMount c _ sound (handled {d} r before ok) =
      (handled-IsSound r d ok (Reaches-IsSoundMount c d sound before)).1
  Reaches-IsSoundMount c _ sound (elsewhere {d} w before) = Reaches-IsSoundMount c d sound before

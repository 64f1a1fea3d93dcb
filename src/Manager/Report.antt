-- ===== src/Manager/Report.antt =====
-- `run_fuse` in its thread and the wait for its report in `mountInternal` (src/usvfsmanager.cpp), step
-- by step. The two share the `MountState`, with its mutex, condition variable and status. What runs
-- between two of the steps is seen by one of them only.
pub mod Safety
pub mod Failure
pub mod Race
use usvfs_fuse.Base.{Bool, true, false, ◌||◌, ◌&&◌, List, [], ◌∷◌, if◌then◌else◌}

-- `MountState::Status`
pub data Status : Type 0 where
  unknown success failure : Status

-- Where `run_fuse` is: before it takes the lock, with the lock and the mount to be made, with the
-- lock and its status set, without the lock and to notify, notified, and past its return or in
-- `fuse_loop`.
pub data Worker : Type 0 where
  begins works has_set has_unlocked has_notified ended : Worker

-- Where `mountInternal` is: before it takes the lock, with the lock and to test the status, asleep,
-- woken and to take the lock again, with the lock and to read the status, and past the wait with
-- its answer.
pub data Waiter : Type 0 where
  arrives tests asleep woken reads : Waiter
  answered : Bool → Waiter

-- `is_handed`: the state is in the manager's list of mounts. `is_freed`: the state and its mutex are
-- destroyed. `is_faulty`: they were used afterwards.
pub record Report : Type 0 where
  pub status : Status
  pub is_locked : Bool
  pub is_handed : Bool
  pub is_freed : Bool
  pub is_faulty : Bool
  pub worker : Worker
  pub waiter : Waiter

-- Who goes on. The waiter may wake up without a notification. `unmount_turn`: another call of the
-- manager, `unmount`, clears the list of mounts.
pub data Turn : Type 0 where
  worker_turn waiter_turn wake_up unmount_turn : Turn

abbrev is_success : Status → Bool
is_success success = true
is_success _ = false

-- `notify_all`
abbrev notified : Waiter → Waiter
notified asleep = woken
notified v = v

-- The state and its mutex are used.
abbrev used : Report → Bool
used r = r.is_faulty || r.is_freed

-- `run_fuse`, where `mounts` says whether `fuse_new` and `fuse_mount` succeed. It owns the state until
-- it hands it to the manager, and destroys it where it returns without that; else it goes into
-- `fuse_loop` with the handle that the state keeps.
unfoldable pub worker_step : Bool → Report → Report
worker_step mounts r = elim r.worker [
  | begins ↦ if r.is_locked then r else record r { is_locked = true; worker = works }
  | works ↦ record r {
    is_handed = mounts;
    status = if mounts then success else failure;
    worker = has_set;
  }
  | has_set ↦ record r { is_faulty = used r; is_locked = false; worker = has_unlocked }
  | has_unlocked ↦ record r {
    is_faulty = used r;
    waiter = notified r.waiter;
    worker = has_notified;
  }
  | has_notified ↦
      if r.is_handed
      then record r { is_faulty = used r; worker = ended }
      else record r { is_freed = true; worker = ended }
  | ended ↦ r
]

-- `lock` of a mutex that may be held, or destroyed.
abbrev locking : Report → Report
locking r =
    if r.is_freed
    then record r { is_faulty = true; waiter = tests }
    else if r.is_locked
    then r
    else record r { is_locked = true; waiter = tests }

abbrev is_unknown : Status → Bool
is_unknown unknown = true
is_unknown _ = false

-- The wait in `mountInternal`, and what it reads after it.
unfoldable pub waiter_step : Report → Report
waiter_step r = elim r.waiter [
  | arrives ↦ locking r
  | woken ↦ locking r
  | tests ↦
      if is_unknown r.status
      then record r { is_faulty = used r; is_locked = false; waiter = asleep }
      else record r { is_faulty = used r; waiter = reads }
  | reads ↦ record r {
    is_faulty = used r;
    is_locked = false;
    waiter = answered (is_success r.status);
  }
  | asleep ↦ r
  | answered b ↦ r
]

abbrev woken_up : Waiter → Waiter
woken_up asleep = woken
woken_up v = v

abbrev pub is_answered : Waiter → Bool
is_answered (answered b) = true
is_answered _ = false

-- `unmount`, up to its clearing of the list, which destroys the states in it. It has to wait for the
-- manager's mutex, which the caller of `mountInternal` holds until that has its answer.
unfoldable pub unmount_step : Report → Report
unmount_step r = if is_answered r.waiter && r.is_handed then record r { is_freed = true } else r

unfoldable pub step : Bool → Turn → Report → Report
step mounts worker_turn r = worker_step mounts r
step mounts waiter_turn r = waiter_step r
step mounts unmount_turn r = unmount_step r
step mounts wake_up r = record r { waiter = woken_up r.waiter }

-- The turns one after the other.
unfoldable pub run : Bool → List Turn → Report → Report
run mounts [] r = r
run mounts (t ∷ ts) r = run mounts ts (step mounts t r)

abbrev pub start : Report
start = record {
  status = unknown;
  is_locked = false;
  is_handed = false;
  is_freed = false;
  is_faulty = false;
  worker = begins;
  waiter = arrives;
}

-- ===== src/Manager/Report/Safety.antt =====
-- The report of a mount that succeeds (src/usvfsmanager.cpp).
use usvfs_fuse.Base.{
  Bool, true, false, ◌||◌, ◌&&◌, ◌⊎◌, inl, inr, All, subst, sym, Bool-cases, List, [], ◌∷◌, ◌≡◌,
  refl, ap, ◌∙◌, arith,
}
use usvfs_fuse.Manager.Report.{
  Status, unknown, success, Worker, begins, works, has_set, has_unlocked, has_notified, ended,
  Waiter, arrives, tests, asleep, woken, reads, answered, Report, Turn, worker_turn, waiter_turn,
  wake_up, unmount_turn, is_answered, unmount_step, worker_step, waiter_step, step, run, start,
}

abbrev pub works_locked : Worker → Bool
works_locked works = true
works_locked has_set = true
works_locked _ = false

abbrev pub waits_locked : Waiter → Bool
waits_locked tests = true
waits_locked reads = true
waits_locked _ = false

abbrev pub hands : Worker → Bool
hands begins = false
hands works = false
hands _ = true

abbrev reported : Worker → Status
reported begins = unknown
reported works = unknown
reported _ = success

-- The worker and the waiter can be there at the same time.
abbrev pub fit : Worker → Waiter → Bool
fit works tests = false
fit works reads = false
fit works (answered b) = false
fit begins reads = false
fit begins (answered b) = false
fit has_set tests = false
fit has_set reads = false
fit has_set (answered b) = false
fit has_notified asleep = false
fit ended asleep = false
fit _ (answered b) = b
fit _ _ = true

pub record IsGood (r : Report) : Type 0 where
  pub kept : r.is_freed ≡ false
  pub clean : r.is_faulty ≡ false
  pub locked : r.is_locked ≡ (works_locked r.worker || waits_locked r.waiter)
  pub handed : r.is_handed ≡ hands r.worker
  pub status : r.status ≡ reported r.worker
  pub together : fit r.worker r.waiter ≡ true

pub start-IsGood : IsGood start
start-IsGood = ground arith

abbrev pub is_unmount : Turn → Bool
is_unmount unmount_turn = true
is_unmount _ = false

-- None of the turns is that of `unmount`.
abbrev pub IsUndisturbed : List Turn → Type 0
IsUndisturbed = All (λ t. is_unmount t ≡ false)

step-IsGood : (t : Turn) (r : Report) → is_unmount t ≡ false → IsGood r → IsGood (step true t r)
unfolding step worker_step waiter_step
step-IsGood worker_turn r alone g = ground arith
step-IsGood waiter_turn r alone g = ground arith
step-IsGood wake_up r alone g = ground arith
step-IsGood unmount_turn r alone g = absurd (cc)

pub run-IsGood :
    (ts : List Turn) (r : Report) → IsUndisturbed ts → IsGood r → IsGood (run true ts r)
unfolding run
run-IsGood [] r alone g = g
run-IsGood (t ∷ ts) r (now, alone) g = run-IsGood ts (step true t r) alone (step-IsGood t r now g)

-- An answer is given of a mount that has been made.
abbrev pub IsRightAnswer : Waiter → Status → Type 0
IsRightAnswer (answered b) s = (b ≡ true) × (s ≡ success)
IsRightAnswer _ s = Unit

good_answer :
    (w : Worker) (v : Waiter) (s : Status) → s ≡ reported w → fit w v ≡ true → IsRightAnswer v s
good_answer w (answered b) s e f = ground arith
good_answer w arrives s e f = tt
good_answer w tests s e f = tt
good_answer w asleep s e f = tt
good_answer w woken s e f = tt
good_answer w reads s e f = tt

apart : (w : Worker) (v : Waiter) → fit w v ≡ true → (works_locked w && waits_locked v) ≡ false
apart w v f = ground arith

-- In every interleaving of `run_fuse`, where the mount succeeds, and of the wait for its report, with
-- wake-ups that nobody has asked for and without an `unmount`: the two never hold the lock at the
-- same time, and the lock is held exactly where one of them is between its `lock` and its `unlock`;
-- the state is never used after it is destroyed, and is not destroyed at all, and is in the list of
-- mounts from the time that the status is set; and where `mountInternal` is past the wait, its answer
-- is true and the status says success.
pub report_safe :
    (ts : List Turn)
    → IsUndisturbed ts
    → let r = run true ts start in
      ((works_locked r.worker && waits_locked r.waiter) ≡ false)
      × (r.is_locked ≡ (works_locked r.worker || waits_locked r.waiter))
      × (r.is_faulty ≡ false)
      × (r.is_freed ≡ false)
      × (r.is_handed ≡ hands r.worker)
      × IsRightAnswer r.waiter r.status
report_safe ts alone =
    let g = run-IsGood ts start alone start-IsGood in
    (
      apart _ _ g.together,
      g.locked,
      g.clean,
      g.kept,
      g.handed,
      good_answer _ _ _ g.status g.together,
    )

-- The waiter twice, `run_fuse` to its end, and the waiter to its end.
abbrev pub fair : List Turn
fair =
    waiter_turn ∷ waiter_turn ∷ worker_turn ∷ worker_turn ∷ worker_turn ∷ worker_turn ∷ worker_turn
    ∷ waiter_turn ∷ waiter_turn ∷ waiter_turn ∷ waiter_turn ∷ []

-- The report at these places of the two.
abbrev at : Worker → Waiter → Report
at w v = record {
  status = reported w;
  is_locked = works_locked w || waits_locked v;
  is_handed = hands w;
  is_freed = false;
  is_faulty = false;
  worker = w;
  waiter = v;
}

good-at : (r : Report) → IsGood r → r ≡ at r.worker r.waiter
good-at r g = ground arith

fair_answers :
    (w : Worker) (v : Waiter) → fit w v ≡ true → (run true fair (at w v)).waiter ≡ answered true
unfolding run step worker_step waiter_step
fair_answers begins arrives f = refl
fair_answers begins tests f = refl
fair_answers begins asleep f = refl
fair_answers begins woken f = refl
fair_answers begins reads f = absurd (cc)
fair_answers begins (answered b) f = absurd (cc)
fair_answers works arrives f = refl
fair_answers works tests f = absurd (cc)
fair_answers works asleep f = refl
fair_answers works woken f = refl
fair_answers works reads f = absurd (cc)
fair_answers works (answered b) f = absurd (cc)
fair_answers has_set arrives f = refl
fair_answers has_set tests f = absurd (cc)
fair_answers has_set asleep f = refl
fair_answers has_set woken f = refl
fair_answers has_set reads f = absurd (cc)
fair_answers has_set (answered b) f = absurd (cc)
fair_answers has_unlocked arrives f = refl
fair_answers has_unlocked tests f = refl
fair_answers has_unlocked asleep f = refl
fair_answers has_unlocked woken f = refl
fair_answers has_unlocked reads f = refl
fair_answers has_unlocked (answered b) f = ap answered f
fair_answers has_notified arrives f = refl
fair_answers has_notified tests f = refl
fair_answers has_notified asleep f = absurd (cc)
fair_answers has_notified woken f = refl
fair_answers has_notified reads f = refl
fair_answers has_notified (answered b) f = ap answered f
fair_answers ended arrives f = refl
fair_answers ended tests f = refl
fair_answers ended asleep f = absurd (cc)
fair_answers ended woken f = refl
fair_answers ended reads f = refl
fair_answers ended (answered b) f = ap answered f

step-answered :
    (t : Turn) (r : Report) → r.waiter ≡ answered true → (step true t r).waiter ≡ answered true
unfolding step worker_step waiter_step unmount_step
step-answered worker_turn r h = ground arith
step-answered waiter_turn r h = ground arith
step-answered wake_up r h = ground arith
step-answered unmount_turn r h = ground arith

run-answered :
    (ts : List Turn) (r : Report)
    → r.waiter ≡ answered true
    → (run true ts r).waiter ≡ answered true
unfolding run
run-answered [] r h = h
run-answered (t ∷ ts) r h = run-answered ts (step true t r) (step-answered t r h)

-- The report is on its way as it should, or it has come.
abbrev HasCome : Report → Type 0
HasCome r = IsGood r ⊎ (r.waiter ≡ answered true)

unmount_early : (r : Report) → is_answered r.waiter ≡ false → unmount_step r ≡ r
unfolding unmount_step
unmount_early r h = ground arith

come_true : (w : Worker) (v : Waiter) → is_answered v ≡ true → fit w v ≡ true → v ≡ answered true
come_true w (answered b) h f = ground arith
come_true w arrives h f = absurd (cc)
come_true w tests h f = absurd (cc)
come_true w asleep h f = absurd (cc)
come_true w woken h f = absurd (cc)
come_true w reads h f = absurd (cc)

unmount-HasCome : (r : Report) → IsGood r → HasCome (unmount_step r)
unfolding step
unmount-HasCome r g = elim (Bool-cases (is_answered r.waiter)) [
  | inr early ↦ inl (subst IsGood (sym (unmount_early r early)) g)
  | inl late ↦ inr (step-answered unmount_turn r (come_true _ _ late g.together))
]

step-HasCome : (t : Turn) (r : Report) → IsGood r → HasCome (step true t r)
unfolding step
step-HasCome worker_turn r g = inl (step-IsGood worker_turn r refl g)
step-HasCome waiter_turn r g = inl (step-IsGood waiter_turn r refl g)
step-HasCome wake_up r g = inl (step-IsGood wake_up r refl g)
step-HasCome unmount_turn r g = unmount-HasCome r g

run-HasCome : (ts : List Turn) (r : Report) → HasCome r → HasCome (run true ts r)
unfolding run
run-HasCome [] r c = c
run-HasCome (t ∷ ts) r (inl g) = run-HasCome ts (step true t r) (step-HasCome t r g)
run-HasCome (t ∷ ts) r (inr c) = inr (run-answered ts (step true t r) (step-answered t r c))

-- However the two have been interleaved so far, with an `unmount` or without, the report arrives: two turns of the waiter, five of
-- `run_fuse` and four more of the waiter bring it past the wait, with the answer true, where the mount
-- succeeds. So no notification is lost, and the two do not block each other.
pub report_arrives : (ts : List Turn) → (run true fair (run true ts start)).waiter ≡ answered true
report_arrives ts = elim (run-HasCome ts start (inl start-IsGood)) [
  | inr come ↦ run-answered fair (run true ts start) come
  | inl g ↦
      ap (λ r. (run true fair r).waiter) (good-at (run true ts start) g)
      ∙ fair_answers _ _ g.together
]

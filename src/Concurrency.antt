-- ===== src/Concurrency.antt =====
-- `DynamicConcurrencyLimiter` of src/network/concurrency.py. A task that acquires is parked on the
-- condition while the active tasks are at the limit. The steps are those of the event loop: between two
-- of them the adaptive limiter may have changed the rate.
use finpipe.Base.{
  ℕ, suc, ◌+◌, ◌-◌, ◌≤◌, ◌<◌, ◌≡◌, refl, Bool, true, false, leb, arith, if◌then◌else◌, Option, none,
  some,
}
use finpipe.Base
use finpipe.Float.{Float}

-- the tasks that run, and those that wait on the condition
pub record Slots : Type 0 where
  pub active_tasks : ℕ
  pub waiting : ℕ

module _ {F : Type 0} ⦃fl : Float F⦄ where
  -- `_get_dynamic_limit` at a rate and a latency multiplier
  unfoldable pub get_dynamic_limit : F → F → ℕ
  get_dynamic_limit rate latency_multiplier = Base.max 1 (fl.trunc (fl.mul rate latency_multiplier))

-- `acquire`, up to its first suspension: the task is admitted, or it waits
unfoldable pub acquire_slot : ℕ → Slots → Slots
acquire_slot limit s =
    if leb limit s.active_tasks
    then record s { waiting = s.waiting + 1 }
    else record s { active_tasks = s.active_tasks + 1 }

-- a waiting task is woken and tests the loop's condition again
unfoldable pub wake : ℕ → Slots → Slots
wake limit s =
    if leb limit s.active_tasks
    then s
    else record s { active_tasks = s.active_tasks + 1; waiting = s.waiting - 1 }

-- `release`
unfoldable pub release_slot : Slots → Slots
release_slot s = record s { active_tasks = s.active_tasks - 1 }

-- A step of some task, where the limit is at most `bound`.
pub data SlotStep (bound : ℕ) (s : Slots) : Slots → Type 0 where
  acquiring : (limit : ℕ) → limit ≤ bound → SlotStep bound s (acquire_slot limit s)
  waking : (limit : ℕ) → limit ≤ bound → 1 ≤ s.waiting → SlotStep bound s (wake limit s)
  releasing : 1 ≤ s.active_tasks → SlotStep bound s (release_slot s)

pub data SlotReach (bound : ℕ) (s : Slots) : Slots → Type 0 where
  here : SlotReach bound s s
  next : {t u : Slots} → SlotReach bound s t → SlotStep bound t u → SlotReach bound s u

abbrev pub idle : Slots
idle = record { active_tasks = 0; waiting = 0 }

SlotStep-le :
    {bound : ℕ} {s t : Slots} → SlotStep bound s t → s.active_tasks ≤ bound → t.active_tasks ≤ bound
unfolding acquire_slot wake release_slot
SlotStep-le (acquiring limit h) k = ground arith
SlotStep-le (waking limit h w) k = ground arith
SlotStep-le (releasing h) k = ground arith

SlotReach-le :
    {bound : ℕ} {s t : Slots}
    → SlotReach bound s t
    → s.active_tasks ≤ bound
    → t.active_tasks ≤ bound
SlotReach-le here k = k
SlotReach-le (next r st) k = SlotStep-le st (SlotReach-le r k)

-- However acquisitions, wake-ups and releases interleave and however the rate moves: the active tasks are
-- never more than the largest limit so far.
pub active_tasks-le : (bound : ℕ) {s : Slots} → SlotReach bound idle s → s.active_tasks ≤ bound
active_tasks-le bound r = SlotReach-le r (omega arith)

module _ {F : Type 0} ⦃fl : Float F⦄ where
  -- Whatever the rate, be it zero, and whatever the multiplier: where no task is active, a task that
  -- acquires is admitted, and none is left waiting for ever at a limit of zero.
  acquire_slot-idle :
      (rate latency_multiplier : F)
      → acquire_slot (get_dynamic_limit rate latency_multiplier) idle
        ≡ record { active_tasks = 1; waiting = 0 }
  unfolding get_dynamic_limit acquire_slot
  acquire_slot-idle rate latency_multiplier = ground arith

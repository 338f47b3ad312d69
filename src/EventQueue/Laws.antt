-- ===== src/EventQueue/Laws.antt =====
-- The queue of src/EventScheduler.h: order, stability and time.
use libsidplayfp.Base.{
  ℕ, ◌+◌, ◌*◌, ◌/◌, ◌%◌, ◌^◌, ◌≤◌, ◌<◌, ◌≡◌, refl, bit_and, bit_xor, false, ◌||◌, some, [], ◌∷◌,
  ◌++◌, arith, ◌==◌, bit_and-0x01, bit_xor_step, bit_xor-zero,
}
use libsidplayfp.EventQueue.{
  EventId, Queue, EventPhase, phi1, phi2, phase_number, trigger_at, trigger_after, time_at,
  is_pending, insert, remove, Context, schedule_phase, schedule, cancel, next_event, NotBefore,
  IsSorted, up_to, after, IsTimely,
}

NotBefore-weaken : (m n : ℕ) (q : Queue) → m ≤ n → NotBefore n q → NotBefore m q
NotBefore-weaken m n [] h b = tt
NotBefore-weaken m n ((e, t) ∷ q) h b = (omega arith, NotBefore-weaken m n q h b.1)

NotBefore-insert :
    (n : ℕ) (e : EventId) (t : ℕ) (q : Queue) → n ≤ t → NotBefore n q → NotBefore n (insert e t q)
unfolding insert
NotBefore-insert n e t [] h b = (h, tt)
NotBefore-insert n e t ((f, u) ∷ q) h b = ground (arith, NotBefore-insert n e t q h b.1)

IsSorted-insert : (e : EventId) (t : ℕ) (q : Queue) → IsSorted q → IsSorted (insert e t q)
unfolding insert
IsSorted-insert e t [] s = (tt, tt)
IsSorted-insert e t ((f, u) ∷ q) s =
    ground (arith, IsSorted-insert e t q s.1, NotBefore-weaken t u q, NotBefore-insert u e t q)

up_to-late : (t : ℕ) (q : Queue) → NotBefore (t + 1) q → (up_to t q ≡ []) × (after t q ≡ q)
up_to-late t [] b = (refl, refl)
up_to-late t ((f, u) ∷ q) b = ground (arith, up_to-late t q b.1)

-- On an ordered queue the new event goes behind every event that fires no later, and before every
-- event that fires later: events of one time fire in the order in which they were scheduled.
pub insert_stable :
    (e : EventId) (t : ℕ) (q : Queue) → IsSorted q → insert e t q ≡ up_to t q ++ (e, t) ∷ after t q
unfolding insert
insert_stable e t [] s = refl
insert_stable e t ((f, u) ∷ q) s =
    ground (arith, insert_stable e t q s.1, up_to-late t q, NotBefore-weaken (t + 1) u q)

NotBefore-remove : (n : ℕ) (e : EventId) (q : Queue) → NotBefore n q → NotBefore n (remove e q)
unfolding remove
NotBefore-remove n e [] b = tt
NotBefore-remove n e ((f, u) ∷ q) b = ground (arith, NotBefore-remove n e q b.1)

IsSorted-remove : (e : EventId) (q : Queue) → IsSorted q → IsSorted (remove e q)
unfolding remove
IsSorted-remove e [] s = tt
IsSorted-remove e ((f, u) ∷ q) s =
    ground (arith, IsSorted-remove e q s.1, NotBefore-remove u e q s.0)

pub is_pending-insert :
    (x e : EventId) (t : ℕ) (q : Queue) → is_pending x (insert e t q) ≡ ((x == e) || is_pending x q)
unfolding insert
is_pending-insert x e t [] = refl
is_pending-insert x e t ((f, u) ∷ q) = ground (arith, is_pending-insert x e t q)

-- Cancelling an event that was not pending and has just been scheduled undoes the scheduling.
pub remove-insert :
    (e : EventId) (t : ℕ) (q : Queue) → is_pending e q ≡ false → remove e (insert e t q) ≡ q
unfolding insert remove
remove-insert e t [] h = ground arith
remove-insert e t ((f, u) ∷ q) h = ground (arith, remove-insert e t q)

pub remove_absent : (e : EventId) (q : Queue) → is_pending e q ≡ false → remove e q ≡ q
unfolding remove
remove_absent e [] h = refl
remove_absent e ((f, u) ∷ q) h = ground (arith, remove_absent e q)

-- `(now & 1) ^ phase` in arithmetic.
slot :
    (now : ℕ) (p : EventPhase)
    → bit_xor (bit_and now 1) (phase_number p) ≡ (now + phase_number p) % 2
slot now phi1 = omega (arith, bit_and-0x01 now, bit_xor-zero (bit_and now 1))
slot now phi2 =
    ground (arith, bit_and-0x01 now, bit_xor_step (now % 2) 1, bit_xor-zero (now % 2 / 2))

trigger_at_lem :
    (now cycles : ℕ) (p : EventPhase)
    → cycles < 2 ^ 31
    → trigger_at now cycles p ≡ now + (now + phase_number p) % 2 + cycles * 2
unfolding trigger_at
trigger_at_lem now cycles p h = omega (arith, slot now p)

-- For fewer than 2^31 cycles, the event is set off at the first time in the wanted phase that is at least `cycles` cycles away.
pub trigger_at_earliest :
    (now cycles : ℕ) (p : EventPhase)
    → cycles < 2 ^ 31
    → (now + cycles * 2 ≤ trigger_at now cycles p)
      × (trigger_at now cycles p % 2 ≡ phase_number p)
      × ((t : ℕ) → now + cycles * 2 ≤ t → t % 2 ≡ phase_number p → trigger_at now cycles p ≤ t)
trigger_at_earliest now cycles phi1 h = omega (arith, trigger_at_lem now cycles phi1 h)
trigger_at_earliest now cycles phi2 h = omega (arith, trigger_at_lem now cycles phi2 h)

-- For fewer than 2^31 cycles, an event set off by `schedule(event, cycles, phase)` sees the
-- `getTime` of its phase `cycles` further on than an event scheduled with 0 cycles.
pub get_time-trigger_at :
    (now cycles : ℕ) (p : EventPhase)
    → cycles < 2 ^ 31
    → time_at (trigger_at now cycles p) p ≡ time_at (trigger_at now 0 p) p + cycles
unfolding time_at
get_time-trigger_at now cycles phi1 h =
    omega (arith, trigger_at_lem now cycles phi1 h, trigger_at_lem now 0 phi1 (omega arith))
get_time-trigger_at now cycles phi2 h =
    omega (arith, trigger_at_lem now cycles phi2 h, trigger_at_lem now 0 phi2 (omega arith))

trigger-le : (now cycles : ℕ) (p : EventPhase) → now ≤ trigger_at now cycles p
unfolding trigger_at
trigger-le now cycles p = omega arith

schedule_phase-IsTimely :
    (e : EventId) (cycles : ℕ) (p : EventPhase) (c : Context)
    → IsTimely c
    → IsTimely (schedule_phase e cycles p c)
unfolding schedule_phase
schedule_phase-IsTimely e cycles p c v = record {
  sorted = IsSorted-insert e (trigger_at c.now cycles p) c.queue v.sorted;
  not_late =
      NotBefore-insert c.now e (trigger_at c.now cycles p) c.queue (trigger-le c.now cycles p)
        v.not_late;
}

schedule-IsTimely :
    (e : EventId) (cycles : ℕ) (c : Context) → IsTimely c → IsTimely (schedule e cycles c)
unfolding schedule trigger_after
schedule-IsTimely e cycles c v = record {
  sorted = IsSorted-insert e (c.now + cycles * 2 % 2 ^ 32) c.queue v.sorted;
  not_late =
      NotBefore-insert c.now e (c.now + cycles * 2 % 2 ^ 32) c.queue (omega arith) v.not_late;
}

cancel-IsTimely : (e : EventId) (c : Context) → IsTimely c → IsTimely (cancel e c)
unfolding cancel
cancel-IsTimely e c v = record {
  sorted = IsSorted-remove e c.queue v.sorted;
  not_late = NotBefore-remove c.now e c.queue v.not_late;
}

pop-IsTimely :
    (now : ℕ) (q : Queue) {e : EventId} {c' : Context}
    → IsTimely (record { now = now; queue = q })
    → next_event (record { now = now; queue = q }) ≡ some (e, c')
    → (now ≤ c'.now) × IsTimely c'
unfolding next_event
pop-IsTimely now [] v h = cc
pop-IsTimely now ((f, u) ∷ q) v h = ground arith

-- What a component can do to the scheduler, and the scheduler's own step.
pub data Step : Context → Context → Type 0 where
  at_phase : (e : EventId) (n : ℕ) (p : EventPhase) (c : Context) → Step c (schedule_phase e n p c)
  same_phase : (e : EventId) (n : ℕ) (c : Context) → Step c (schedule e n c)
  cancelled : (e : EventId) (c : Context) → Step c (cancel e c)
  fired : {c d : Context} (e : EventId) → next_event c ≡ some (e, d) → Step c d

pub data Reach (c : Context) : Context → Type 0 where
  here : Reach c c
  next : {d d' : Context} → Reach c d → Step d d' → Reach c d'

Step-IsTimely : {c d : Context} → Step c d → IsTimely c → (c.now ≤ d.now) × IsTimely d
unfolding schedule_phase schedule cancel
Step-IsTimely (at_phase e n p c) v = (omega arith, schedule_phase-IsTimely e n p c v)
Step-IsTimely (same_phase e n c) v = (omega arith, schedule-IsTimely e n c v)
Step-IsTimely (cancelled e c) v = (omega arith, cancel-IsTimely e c v)
Step-IsTimely (fired {c} {d} e h) v = pop-IsTimely c.now c.queue v h

-- However events are scheduled, cancelled and fired, from a timely queue time never goes back, the
-- queue stays ordered by time, and no event is ever left behind in the past.
pub Reach-IsTimely : {c d : Context} → IsTimely c → Reach c d → (c.now ≤ d.now) × IsTimely d
Reach-IsTimely v here = (omega arith, v)
Reach-IsTimely v (next r s) =
    let before = Reach-IsTimely v r in let step = Step-IsTimely s before.1 in (omega arith, step.1)

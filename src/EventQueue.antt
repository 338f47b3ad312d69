-- ===== src/EventQueue.antt =====
-- What src/EventScheduler.h promises, without pointers: the pending events in the order in which
-- they fire, each with its trigger time. The other components are modelled over this queue.
pub mod Laws
mod Tests
use libsidplayfp.Base.{
  ℕ, ◌+◌, ◌-◌, ◌*◌, ◌/◌, ◌%◌, ◌^◌, ◌≤◌, bit_and, bit_xor, Bool, true, false, ◌||◌, Option, none,
  some, List, [], ◌∷◌, ◌==◌, ltb, leb, if◌then◌else◌,
}

-- An event is named by a number; 0 is no event.
abbrev pub EventId : Type 0
EventId = ℕ

abbrev pub Queue : Type 0
Queue = List (EventId × ℕ)

-- `event_phase_t`
pub data EventPhase : Type 0 where
  phi1 phi2 : EventPhase

abbrev pub phase_number : EventPhase → ℕ
phase_number phi1 = 0
phase_number phi2 = 1

-- The time at which `schedule(event, cycles, phase)` sets the event off: `cycles << 1` is
-- computed in 32 bits.
unfoldable pub trigger_at : (now cycles : ℕ) → EventPhase → ℕ
trigger_at now cycles phase =
    now + bit_xor (bit_and now 1) (phase_number phase) + cycles * 2 % 2 ^ 32

-- The same for `schedule(event, cycles)`.
unfoldable pub trigger_after : (now cycles : ℕ) → ℕ
trigger_after now cycles = now + cycles * 2 % 2 ^ 32

-- `getTime`
unfoldable pub time_at : ℕ → EventPhase → ℕ
time_at now phase = (now + bit_xor (phase_number phase) 1) / 2

abbrev pub is_pending : EventId → Queue → Bool
is_pending e [] = false
is_pending e ((f, u) ∷ q) = (e == f) || is_pending e q

unfoldable pub insert : EventId → ℕ → Queue → Queue
insert e t [] = (e, t) ∷ []
insert e t ((f, u) ∷ q) = if ltb t u then (e, t) ∷ (f, u) ∷ q else (f, u) ∷ insert e t q

unfoldable pub remove : EventId → Queue → Queue
remove e [] = []
remove e ((f, u) ∷ q) = if e == f then q else (f, u) ∷ remove e q

-- The scheduler that the other components see.
pub record Context : Type 0 where
  pub now : ℕ
  pub queue : Queue

unfoldable pub schedule_phase : EventId → ℕ → EventPhase → Context → Context
schedule_phase e cycles phase c = record c {
  queue = insert e (trigger_at c.now cycles phase) c.queue;
}

unfoldable pub schedule : EventId → ℕ → Context → Context
schedule e cycles c = record c { queue = insert e (trigger_after c.now cycles) c.queue }

unfoldable pub cancel : EventId → Context → Context
cancel e c = record c { queue = remove e c.queue }

unfoldable pub get_time : EventPhase → Context → ℕ
get_time phase c = time_at c.now phase

-- `clock()` up to the call of `event()`; with no event pending the C++ is undefined.
unfoldable pub next_event : Context → Option (EventId × Context)
next_event c = elim c.queue [ [] ↦ none | (e, t) ∷ q ↦ some (e, record { now = t; queue = q }) ]

-- Every trigger time is at least `n`.
abbrev pub NotBefore : ℕ → Queue → Type 0
NotBefore n [] = Unit
NotBefore n ((e, t) ∷ q) = (n ≤ t) × NotBefore n q

abbrev pub IsSorted : Queue → Type 0
IsSorted [] = Unit
IsSorted ((e, t) ∷ q) = NotBefore t q × IsSorted q

-- The events of the queue with a trigger time up to `t`, and those after it.
abbrev pub up_to : ℕ → Queue → Queue
up_to t [] = []
up_to t ((f, u) ∷ q) = if leb u t then (f, u) ∷ up_to t q else up_to t q

abbrev pub after : ℕ → Queue → Queue
after t [] = []
after t ((f, u) ∷ q) = if leb u t then after t q else (f, u) ∷ after t q

-- No event is pending before the present.
pub record IsTimely (c : Context) : Type 0 where
  pub sorted : IsSorted c.queue
  pub not_late : NotBefore c.now c.queue

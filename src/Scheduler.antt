-- ===== src/Scheduler.antt =====
-- src/EventScheduler.h, src/EventScheduler.cpp and src/Event.h at the level of pointers. An `Event`
-- is an object at an address, 0 being `nullptr`; its `next` and `triggerTime` are the cell there.
-- A loop over the chain runs on fuel; `none` is a loop that has not ended within it.
pub mod Chain
pub mod Refine
mod Tests
use libsidplayfp.Base.{
  ℕ, zero, suc, ◌+◌, Bool, true, false, Option, none, some, ◌==◌, ltb, ◌||◌, if◌then◌else◌,
}
use libsidplayfp.EventQueue.{EventId, EventPhase, trigger_at, trigger_after}

pub record Event : Type 0 where
  pub next : EventId
  pub trigger_time : ℕ

abbrev pub Heap : Type 0
Heap = EventId → Event

pub record EventScheduler : Type 0 where
  pub first_event : EventId
  pub current_time : ℕ
  pub heap : Heap

unfoldable pub write : EventId → Event → Heap → Heap
write a v h b = if b == a then v else h b

-- The places that `Event **scan` points to: `firstEvent`, or the `next` of an event.
pub data Slot : Type 0 where
  first : Slot
  next_of : EventId → Slot

-- `*scan`
pub read_slot : EventScheduler → Slot → EventId
read_slot s first = s.first_event
read_slot s (next_of a) = (s.heap a).next

-- `*scan = e`
pub write_slot : Slot → EventId → EventScheduler → EventScheduler
write_slot first e s = record s { first_event = e }
write_slot (next_of a) e s = record s {
  heap = write a (record { next = e; trigger_time = (s.heap a).trigger_time }) s.heap;
}

-- The loop of the private `schedule`, from `scan` on; it ends by linking the event in.
pub insert_loop : ℕ → EventId → Slot → EventScheduler → Option EventScheduler
unfolding read_slot write_slot write
insert_loop zero e scan s = none
insert_loop (suc fuel) e scan s =
    let at = read_slot s scan in
    let rest = insert_loop fuel e (next_of at) s in
    let linked = write e (record { next = at; trigger_time = (s.heap e).trigger_time }) s.heap in
    if (at == 0) || ltb (s.heap e).trigger_time (s.heap at).trigger_time
    then some (write_slot scan e (record s { heap = linked }))
    else rest

pub set_trigger : EventId → ℕ → EventScheduler → EventScheduler
unfolding write
set_trigger e t s = record s {
  heap = write e (record { next = (s.heap e).next; trigger_time = t }) s.heap;
}

-- `schedule(event, cycles, phase)`
pub schedule_phase : ℕ → EventId → ℕ → EventPhase → EventScheduler → Option EventScheduler
unfolding insert_loop set_trigger
schedule_phase fuel e cycles phase s =
    insert_loop fuel e first (set_trigger e (trigger_at s.current_time cycles phase) s)

-- `schedule(event, cycles)`
pub schedule : ℕ → EventId → ℕ → EventScheduler → Option EventScheduler
unfolding insert_loop set_trigger
schedule fuel e cycles s =
    insert_loop fuel e first (set_trigger e (trigger_after s.current_time cycles) s)

-- The loop of `cancel`, from `scan` on.
pub cancel_loop : ℕ → EventId → Slot → EventScheduler → Option EventScheduler
unfolding read_slot write_slot write
cancel_loop zero e scan s = none
cancel_loop (suc fuel) e scan s =
    let at = read_slot s scan in
    let rest = cancel_loop fuel e (next_of at) s in
    if at == 0 then some s else if e == at then some (write_slot scan (s.heap at).next s) else rest

pub cancel : ℕ → EventId → EventScheduler → Option EventScheduler
unfolding cancel_loop
cancel fuel e s = cancel_loop fuel e first s

pub pending_loop : ℕ → EventId → EventId → Heap → Option Bool
pending_loop zero e scan h = none
pending_loop (suc fuel) e scan h =
    let rest = pending_loop fuel e (h scan).next h in
    if scan == 0 then some false else if e == scan then some true else rest

pub is_pending : ℕ → EventId → EventScheduler → Option Bool
unfolding pending_loop
is_pending fuel e s = pending_loop fuel e s.first_event s.heap

pub reset : EventScheduler → EventScheduler
reset s = record s { first_event = 0; current_time = 0 }

-- `clock()` up to the call of `event()`: the event that fires, and the scheduler that it sees.
-- `none` is the null dereference on an empty queue.
pub clock : EventScheduler → Option (EventId × EventScheduler)
clock s =
    if s.first_event == 0
    then none
    else some (
      s.first_event,
      record s {
        first_event = (s.heap s.first_event).next;
        current_time = (s.heap s.first_event).trigger_time;
      },
    )

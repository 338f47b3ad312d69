-- ===== src/Scheduler/Refine/Linked.antt =====
-- What the loops of src/EventScheduler.h and .cpp have done when they stop: the chain behind a place
-- is changed and nothing else is.
use libsidplayfp.Base.{ℕ, ◌≡◌, ◌≢◌, true, false, ◌∷◌, arith, ap, sym, ◌∙◌}
use libsidplayfp.EventQueue
use libsidplayfp.EventQueue.{EventId, Queue}
use libsidplayfp.Scheduler.{Event, EventScheduler, Slot, first, next_of, read_slot}
use libsidplayfp.Scheduler.Chain.{Holds}

-- The place is not the event `b`.
abbrev pub SlotFree : Slot → EventId → Type 0
SlotFree first b = Unit
SlotFree (next_of a) b = b ≢ a

-- What a write at the place may not change: the head pointer, and the event's time.
abbrev pub SlotKept : Slot → EventScheduler → EventScheduler → Type 0
SlotKept first s s' = Unit
SlotKept (next_of a) s s' =
    (s'.first_event ≡ s.first_event) × ((s'.heap a).trigger_time ≡ (s.heap a).trigger_time)

-- `s'` is `s` with the chain behind `scan` changed from `q` to `q'`, and `e` linked in.
pub record Linked (s s' : EventScheduler) (scan : Slot) (e : EventId) (q q' : Queue) : Type 0 where
  pub chain : Holds s'.heap (read_slot s' scan) q'
  pub kept : SlotKept scan s s'
  pub time : s'.current_time ≡ s.current_time
  pub outside :
      (b : EventId)
      → b ≢ e
      → SlotFree scan b
      → EventQueue.is_pending b q ≡ false
      → s'.heap b ≡ s.heap b

-- No event of the queue stands at the place.
abbrev pub SlotOut : Slot → Queue → Type 0
SlotOut first q = Unit
SlotOut (next_of a) q = EventQueue.is_pending a q ≡ false

pub pending_ne :
    (b e : EventId) (q : Queue)
    → EventQueue.is_pending b q ≡ true
    → EventQueue.is_pending e q ≡ false
    → b ≢ e
pending_ne b e q i o h = cc (ap (λ (x : EventId). EventQueue.is_pending x q) h)

pub pending_free :
    (scan : Slot) (b : EventId) (q : Queue)
    → SlotOut scan q
    → EventQueue.is_pending b q ≡ true
    → SlotFree scan b
pending_free first b q o i = tt
pending_free (next_of a) b q o i = pending_ne b a q i o

pub read_slot-kept :
    (scan : Slot) (s s' : EventScheduler) (e f : EventId) (q q' : Queue)
    → SlotFree scan e
    → SlotFree scan f
    → SlotOut scan q
    → Linked s s' (next_of f) e q q'
    → (read_slot s' scan ≡ read_slot s scan) × SlotKept scan s s'
unfolding read_slot
read_slot-kept first s s' e f q q' fe ff out l = (l.kept.0, tt)
read_slot-kept (next_of a) s s' e f q q' fe ff out l =
    let same : s'.heap a ≡ s.heap a = l.outside a (λ x. fe (sym x)) (λ x. ff (sym x)) out in
    (ap Event.next same, (l.kept.0, ap Event.trigger_time same))

-- The loop has gone past the event `f`.
pub Linked-later :
    (scan : Slot) (s s' : EventScheduler) (e f : EventId) (u : ℕ) (q q' : Queue)
    → SlotFree scan e
    → SlotFree scan f
    → SlotOut scan q
    → Holds s.heap (read_slot s scan) ((f, u) ∷ q)
    → Linked s s' (next_of f) e q q'
    → Linked s s' scan e ((f, u) ∷ q) ((f, u) ∷ q')
unfolding read_slot
Linked-later scan s s' e f u q q' fe ff out h l =
    let at = read_slot-kept scan s s' e f q q' fe ff out l in
    record {
      chain = (at.0 ∙ h.0, h.1, l.kept.1 ∙ h.2, l.chain);
      kept = at.1;
      time = l.time;
      outside = λ b x y z. l.outside b x (ground arith) (ground arith);
    }

pub step_out :
    (scan : Slot) (f : EventId) (u : ℕ) (q : Queue) → SlotOut scan ((f, u) ∷ q) → SlotOut scan q
step_out first f u q o = tt
step_out (next_of a) f u q o = ground arith

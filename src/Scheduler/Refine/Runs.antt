-- ===== src/Scheduler/Refine/Runs.antt =====
-- The whole operations of src/EventScheduler.h and .cpp against those of the event queue.
use libsidplayfp.Base.{
  ℕ, zero, suc, ◌<◌, ◌≡◌, refl, ◌≢◌, false, none, some, [], ◌∷◌, arith, length, ap, ne→==, ◌∙◌, sym,
}
use mathlib.Core.Path.{subst}
use libsidplayfp.EventQueue
use libsidplayfp.EventQueue.{
  EventId, Queue, EventPhase, insert, remove, Context, trigger_at, trigger_after, next_event,
}
use libsidplayfp.EventQueue.Laws.{is_pending-insert}
use libsidplayfp.Scheduler.{
  EventScheduler, write, first, read_slot, insert_loop, set_trigger, schedule_phase, schedule,
  cancel, is_pending, reset, clock, Heap, write_slot, next_of, pending_loop,
}
use libsidplayfp.Scheduler.Refine.Linked.{pending_ne}
use libsidplayfp.Scheduler.Refine.Insert.{insert_loop-Linked}
use libsidplayfp.Scheduler.Refine.Cancel.{cancel_loop-Linked, pending_loop_lem}
use libsidplayfp.Scheduler.Chain.{Holds, NoRepeat, Holds-frame}

-- The pointers of `s` hold the queue of `c`, with no event twice.
pub record Represents (s : EventScheduler) (c : Context) : Type 0 where
  pub time : s.current_time ≡ c.now
  pub chain : Holds s.heap s.first_event c.queue
  pub once : NoRepeat c.queue

NoRepeat-insert :
    (e : EventId) (t : ℕ) (q : Queue)
    → EventQueue.is_pending e q ≡ false
    → NoRepeat q
    → NoRepeat (insert e t q)
unfolding insert
NoRepeat-insert e t [] new once = (refl, tt)
NoRepeat-insert e t ((f, u) ∷ q) new once =
    ground (arith, NoRepeat-insert e t q, is_pending-insert f e t q)

pending-remove :
    (x e : EventId) (q : Queue)
    → EventQueue.is_pending x q ≡ false
    → EventQueue.is_pending x (remove e q) ≡ false
unfolding remove
pending-remove x e [] h = refl
pending-remove x e ((f, u) ∷ q) h = ground (arith, pending-remove x e q)

NoRepeat-remove : (e : EventId) (q : Queue) → NoRepeat q → NoRepeat (remove e q)
unfolding remove
NoRepeat-remove e [] once = tt
NoRepeat-remove e ((f, u) ∷ q) once = ground (arith, NoRepeat-remove e q, pending-remove f e q)

module _ {s : EventScheduler} {c : Context} (fuel : ℕ) (e : EventId) (r : Represents s c)
    (enough : length c.queue < fuel) where
  insert_refines :
      (t t' : ℕ)
      → t' ≡ t
      → e ≢ 0
      → EventQueue.is_pending e c.queue ≡ false
      → (s' : EventScheduler) × (insert_loop fuel e first (set_trigger e t' s) ≡ some s')
        × Represents s' (record c { queue = insert e t c.queue })
  unfolding read_slot set_trigger write
  insert_refines t t' same ne new =
      let s0 = set_trigger e t' s in
      let time : (s0.heap e).trigger_time ≡ t = ground arith in
      let chain : Holds s0.heap s.first_event c.queue =
        Holds-frame s.heap s0.heap s.first_event c.queue
          (λ b i. ground (arith, pending_ne b e c.queue i new)) r.chain in
      let (s', ran, l) =
        insert_loop-Linked fuel e first s0 c.queue enough ne tt tt new r.once chain in
      (
        s',
        ran,
        record {
          time = l.time ∙ r.time;
          chain = rw time at l.chain;
          once = NoRepeat-insert e t c.queue new r.once;
        },
      )

  -- With enough fuel for the pending events, scheduling an event that is not pending ends, and
  -- puts the event into the queue at its time and phase.
  pub schedule_phase_refines :
      (cycles : ℕ) (phase : EventPhase)
      → e ≢ 0
      → EventQueue.is_pending e c.queue ≡ false
      → (s' : EventScheduler) × (schedule_phase fuel e cycles phase s ≡ some s')
        × Represents s' (EventQueue.schedule_phase e cycles phase c)
  unfolding schedule_phase EventQueue.schedule_phase
  schedule_phase_refines cycles phase ne new =
      insert_refines _ _ (ap (λ (n : ℕ). trigger_at n cycles phase) r.time) ne new

  -- With enough fuel for the pending events, scheduling an event that is not pending a number of
  -- cycles ahead in the phase of the present ends, and puts the event into the queue at that time.
  pub schedule_refines :
      (cycles : ℕ)
      → e ≢ 0
      → EventQueue.is_pending e c.queue ≡ false
      → (s' : EventScheduler) × (schedule fuel e cycles s ≡ some s')
        × Represents s' (EventQueue.schedule e cycles c)
  unfolding schedule EventQueue.schedule
  schedule_refines cycles ne new =
      insert_refines _ _ (ap (λ (n : ℕ). trigger_after n cycles) r.time) ne new

  -- With enough fuel for the pending events, cancelling removes the event from the queue and leaves
  -- the others in order, whether or not the event was pending.
  pub cancel_refines :
      (s' : EventScheduler) × (cancel fuel e s ≡ some s') × Represents s' (EventQueue.cancel e c)
  unfolding cancel EventQueue.cancel read_slot
  cancel_refines =
      let (s', ran, l) = cancel_loop-Linked fuel e first s c.queue enough tt tt r.once r.chain in
      (
        s',
        ran,
        record { time = l.time ∙ r.time; chain = l.chain; once = NoRepeat-remove e c.queue r.once },
      )

  -- With enough fuel for the pending events, `isPending` ends and answers whether the event is in
  -- the queue.
  pub is_pending_refines : is_pending fuel e s ≡ some (EventQueue.is_pending e c.queue)
  unfolding is_pending
  is_pending_refines = pending_loop_lem fuel e s.first_event s.heap c.queue enough r.chain

-- `reset` empties the queue and sets the time to 0.
pub reset_refines : (s : EventScheduler) → Represents (reset s) (record { now = 0; queue = [] })
unfolding reset
reset_refines s = record { time = refl; chain = refl; once = tt }

clock_cases :
    (s : EventScheduler) (now : ℕ) (q : Queue) {e : EventId} {c' : Context}
    → Represents s (record { now = now; queue = q })
    → next_event (record { now = now; queue = q }) ≡ some (e, c')
    → (s' : EventScheduler) × (clock s ≡ some (e, s')) × Represents s' c'
unfolding clock next_event
clock_cases s now [] r h = cc
clock_cases s now ((f, u) ∷ q) {c'} r h =
    let at = r.chain in
    let s' : EventScheduler = record s {
      first_event = (s.heap s.first_event).next;
      current_time = (s.heap s.first_event).trigger_time;
    } in
    let fired : record { now = u; queue = q } ≡ c' = cc in
    let left : Represents s' (record { now = u; queue = q }) = record {
      time = subst (λ (p : EventId). (s.heap p).trigger_time ≡ u) (sym at.0) at.2;
      chain = subst (λ (p : EventId). Holds s.heap (s.heap p).next q) (sym at.0) at.3;
      once = r.once.1;
    } in
    (s', ground arith, subst (Represents s') fired left)

-- When an event is pending, `clock` takes the first one out of the queue and makes its time the
-- present.
pub clock_refines :
    {s : EventScheduler} {c c' : Context} {e : EventId}
    → Represents s c
    → next_event c ≡ some (e, c')
    → (s' : EventScheduler) × (clock s ≡ some (e, s')) × Represents s' c'
clock_refines {s} {c} r h = clock_cases s c.now c.queue r h

-- The scheduler in which the event `e` alone is pending, as its cell and the time say.
abbrev pub alone : EventId → ℕ → Heap → EventScheduler
alone e now h = record { first_event = e; current_time = now; heap = h }

-- After `schedule` on it the event is its own successor.
looped : EventId → ℕ → Heap → EventScheduler
looped e now h =
    let s = set_trigger e (trigger_after now 0) (alone e now h) in
    write_slot (next_of e) e
      (record s { heap = write e (record { next = 0; trigger_time = trigger_after now 0 }) s.heap })

schedule-looped :
    (e now fuel : ℕ) (h : Heap)
    → e ≢ 0
    → (h e).next ≡ 0
    → schedule (suc (suc fuel)) e 0 (alone e now h) ≡ some (looped e now h)
unfolding schedule looped
schedule-looped e now fuel h ne last = ground (arith)

self_loop :
    (search x e : ℕ) (h : Heap) → x ≢ e → e ≢ 0 → (h e).next ≡ e → pending_loop search x e h ≡ none
unfolding pending_loop
self_loop zero x e h ne nz own = refl
self_loop (suc n) x e h ne nz own =
    rw (ne→== e 0 nz, ne→== x e ne, own, self_loop n x e h ne nz own)

-- An event that is alone in the queue and is scheduled again before it has fired becomes its own
-- successor: a search for any other event then never ends.
pub schedule_pending-loops :
    (e x now fuel search : ℕ) (h : Heap)
    → x ≢ e
    → e ≢ 0
    → (h e).next ≡ 0
    → (s' : EventScheduler) × (schedule (suc (suc fuel)) e 0 (alone e now h) ≡ some s')
      × (is_pending search x s' ≡ none)
unfolding is_pending looped write_slot write set_trigger
schedule_pending-loops e x now fuel search h ne nz last = (
  looped e now h,
  schedule-looped e now fuel h nz last,
  self_loop search x e _ ne nz (ground arith),
)

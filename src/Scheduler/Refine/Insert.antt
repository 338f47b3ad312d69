-- ===== src/Scheduler/Refine/Insert.antt =====
-- The loop of the private `schedule` of src/EventScheduler.h.
use libsidplayfp.Base.{
  ℕ, zero, suc, ◌<◌, ◌≡◌, refl, ◌≢◌, false, some, [], ◌∷◌, arith, ◌==◌, ◌||◌, ltb, length, ne→==,
  Bool-cases, inl, inr, ap,
}
use libsidplayfp.EventQueue
use libsidplayfp.EventQueue.{EventId, Queue, EventPhase, insert, Context, trigger_at, trigger_after}
use libsidplayfp.Scheduler.{
  Event, EventScheduler, write, Slot, first, next_of, read_slot, write_slot, insert_loop,
}
use libsidplayfp.Scheduler.Refine.Linked.{
  SlotFree, SlotKept, SlotOut, Linked, pending_ne, pending_free, Linked-later, step_out,
}
use libsidplayfp.Scheduler.Chain.{Holds, NoRepeat, Holds-frame}

-- `event.next = *scan; *scan = &event;`
abbrev link : EventId → Slot → EventScheduler → EventScheduler
link e scan s = write_slot scan e (record s {
  heap =
      write e (record { next = read_slot s scan; trigger_time = (s.heap e).trigger_time }) s.heap;
})

module _ (e : EventId) (s : EventScheduler) where
  link-new :
      (scan : Slot)
      → SlotFree scan e
      → (link e scan s).heap e
        ≡ record { next = read_slot s scan; trigger_time = (s.heap e).trigger_time }
  unfolding read_slot write_slot write
  link-new first free = ground arith
  link-new (next_of a) free = ground arith

  link-other :
      (scan : Slot) (b : EventId) → b ≢ e → SlotFree scan b → (link e scan s).heap b ≡ s.heap b
  unfolding read_slot write_slot write
  link-other first b ne free = ground arith
  link-other (next_of a) b ne free = ground arith

  link-slot : (scan : Slot) → read_slot (link e scan s) scan ≡ e
  unfolding read_slot write_slot write
  link-slot first = refl
  link-slot (next_of a) = ground arith

  link-kept : (scan : Slot) → SlotFree scan e → SlotKept scan s (link e scan s)
  unfolding read_slot write_slot write
  link-kept first free = tt
  link-kept (next_of a) free = ground arith

  link-time : (scan : Slot) → (link e scan s).current_time ≡ s.current_time
  unfolding write_slot
  link-time first = refl
  link-time (next_of a) = refl

link-Linked :
    (e : EventId) (scan : Slot) (s : EventScheduler) (q : Queue)
    → e ≢ 0
    → SlotFree scan e
    → SlotOut scan q
    → EventQueue.is_pending e q ≡ false
    → Holds s.heap (read_slot s scan) q
    → Linked s (link e scan s) scan e q ((e, (s.heap e).trigger_time) ∷ q)
link-Linked e scan s q ne free out new h = record {
  chain = (
    link-slot e s scan,
    ne,
    ap Event.trigger_time (link-new e s scan free),
    rw (link-new e s scan free) (
        Holds-frame s.heap (link e scan s).heap (read_slot s scan) q
          (λ b i. link-other e s scan b (pending_ne b e q i new) (pending_free scan b q out i)) h),
  );
  kept = link-kept e s scan free;
  time = link-time e s scan;
  outside = λ b x y z. link-other e s scan b x y;
}

-- The loop's test at an event of the chain.
test_at :
    (e : EventId) (scan : Slot) (s : EventScheduler) (f : EventId) (u : ℕ) (q : Queue)
    → Holds s.heap (read_slot s scan) ((f, u) ∷ q)
    → ((read_slot s scan == 0)
        || ltb (s.heap e).trigger_time (s.heap (read_slot s scan)).trigger_time)
      ≡ ltb (s.heap e).trigger_time u
test_at e scan s f u q h = rw (h.0, h.2, ne→== f 0 h.1)

pub insert_loop-Linked :
    (fuel : ℕ) (e : EventId) (scan : Slot) (s : EventScheduler) (q : Queue)
    → length q < fuel
    → e ≢ 0
    → SlotFree scan e
    → SlotOut scan q
    → EventQueue.is_pending e q ≡ false
    → NoRepeat q
    → Holds s.heap (read_slot s scan) q
    → (s' : EventScheduler) × (insert_loop fuel e scan s ≡ some s')
      × Linked s s' scan e q (insert e (s.heap e).trigger_time q)
unfolding insert_loop insert
insert_loop-Linked zero e scan s q fuel ne free out new once h = absurd (omega arith)
insert_loop-Linked (suc n) e scan s [] fuel ne free out new once h =
    (link e scan s, ground arith, link-Linked e scan s [] ne free out new h)
insert_loop-Linked (suc n) e scan s ((f, u) ∷ q) fuel ne free out new once h =
    let t = (s.heap e).trigger_time in
    elim (Bool-cases (ltb t u)) [
      | inl sooner ↦ (
        link e scan s,
        rw (test_at e scan s f u q h, sooner),
        rw sooner (link-Linked e scan s ((f, u) ∷ q) ne free out new h),
      )
      | inr later ↦
          let (s', ran, l) =
            insert_loop-Linked n e (next_of f) s q (omega arith) ne (ground arith) once.0
              (ground arith) once.1 h.3 in
          let beyond = pending_free scan f ((f, u) ∷ q) out (ground arith) in
          (
            s',
            rw (test_at e scan s f u q h, later, h.0) ran,
            rw later (
                Linked-later scan s s' e f u q (insert e t q) free beyond (step_out scan f u q out)
                  h l),
          )
    ]

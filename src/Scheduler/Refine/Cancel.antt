-- ===== src/Scheduler/Refine/Cancel.antt =====
-- `EventScheduler::cancel` and `isPending` of src/EventScheduler.cpp.
use libsidplayfp.Base.{
  ℕ, zero, suc, ◌<◌, ◌≡◌, refl, some, [], ◌∷◌, arith, ◌==◌, length, ne→==, eq→==, Bool-cases, inl,
  inr,
}
use libsidplayfp.EventQueue
use libsidplayfp.EventQueue.{EventId, Queue, remove}
use libsidplayfp.Scheduler.{
  Heap, EventScheduler, write, Slot, first, next_of, read_slot, write_slot, cancel_loop,
  pending_loop,
}
use libsidplayfp.Scheduler.Refine.Linked.{
  SlotFree, SlotKept, SlotOut, Linked, pending_free, Linked-later, step_out,
}
use libsidplayfp.Scheduler.Chain.{Holds, NoRepeat, Holds-frame}

module _ (v : EventId) (s : EventScheduler) where
  write_slot-other :
      (scan : Slot) (b : EventId) → SlotFree scan b → (write_slot scan v s).heap b ≡ s.heap b
  unfolding write_slot write
  write_slot-other first b free = refl
  write_slot-other (next_of a) b free = ground arith

  read_slot-write_slot : (scan : Slot) → read_slot (write_slot scan v s) scan ≡ v
  unfolding read_slot write_slot write
  read_slot-write_slot first = refl
  read_slot-write_slot (next_of a) = ground arith

  write_slot-kept : (scan : Slot) → SlotKept scan s (write_slot scan v s)
  unfolding write_slot write
  write_slot-kept first = tt
  write_slot-kept (next_of a) = ground arith

  write_slot-time : (scan : Slot) → (write_slot scan v s).current_time ≡ s.current_time
  unfolding write_slot
  write_slot-time first = refl
  write_slot-time (next_of a) = refl

SlotKept-refl : (scan : Slot) (s : EventScheduler) → SlotKept scan s s
SlotKept-refl first s = tt
SlotKept-refl (next_of a) s = (refl, refl)

unlink-Linked :
    (e f : EventId) (scan : Slot) (s : EventScheduler) (u : ℕ) (q : Queue)
    → SlotOut scan q
    → Holds s.heap (read_slot s scan) ((f, u) ∷ q)
    → Linked s (write_slot scan (s.heap f).next s) scan e ((f, u) ∷ q) q
unlink-Linked e f scan s u q out h =
    let v = (s.heap f).next in
    record {
      chain = rw (read_slot-write_slot v s scan) (
          Holds-frame s.heap (write_slot scan v s).heap v q
            (λ b i. write_slot-other v s scan b (pending_free scan b q out i)) h.3);
      kept = write_slot-kept v s scan;
      time = write_slot-time v s scan;
      outside = λ b x y z. write_slot-other v s scan b y;
    }

pub cancel_loop-Linked :
    (fuel : ℕ) (e : EventId) (scan : Slot) (s : EventScheduler) (q : Queue)
    → length q < fuel
    → SlotFree scan e
    → SlotOut scan q
    → NoRepeat q
    → Holds s.heap (read_slot s scan) q
    → (s' : EventScheduler) × (cancel_loop fuel e scan s ≡ some s')
      × Linked s s' scan e q (remove e q)
unfolding cancel_loop remove
cancel_loop-Linked zero e scan s q fuel free out once h = absurd (omega arith)
cancel_loop-Linked (suc n) e scan s [] fuel free out once h = (
  s,
  rw (eq→== _ 0 h),
  record { chain = h; kept = SlotKept-refl scan s; time = refl; outside = λ b x y z. refl },
)
cancel_loop-Linked (suc n) e scan s ((f, u) ∷ q) fuel free out once h = elim (Bool-cases (e == f)) [
  | inl hit ↦ (
    write_slot scan (s.heap f).next s,
    rw (h.0, ne→== f 0 h.1, hit),
    rw hit (unlink-Linked e f scan s u q (step_out scan f u q out) h),
  )
  | inr miss ↦
      let (s', ran, l) =
        cancel_loop-Linked n e (next_of f) s q (omega arith) (ground arith) once.0 once.1 h.3 in
      let beyond = pending_free scan f ((f, u) ∷ q) out (ground arith) in
      (
        s',
        rw (h.0, ne→== f 0 h.1, miss) ran,
        rw miss
            (Linked-later scan s s' e f u q (remove e q) free beyond (step_out scan f u q out) h l),
      )
]

pub pending_loop_lem :
    (fuel : ℕ) (e p : EventId) (h : Heap) (q : Queue)
    → length q < fuel
    → Holds h p q
    → pending_loop fuel e p h ≡ some (EventQueue.is_pending e q)
unfolding pending_loop
pending_loop_lem zero e p h q fuel c = absurd (omega arith)
pending_loop_lem (suc n) e p h [] fuel c = rw (eq→== p 0 c)
pending_loop_lem (suc n) e p h ((f, u) ∷ q) fuel c =
    rw (c.0, ne→== f 0 c.1, pending_loop_lem n e (h f).next h q (omega arith) c.3) (ground arith)

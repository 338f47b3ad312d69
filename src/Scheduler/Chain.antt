-- ===== src/Scheduler/Chain.antt =====
-- Which queue a chain of `next` pointers stands for, and what a write leaves alone.
use libsidplayfp.Base.{◌≡◌, ◌≢◌, true, false, [], ◌∷◌, arith}
use libsidplayfp.EventQueue.{EventId, Queue, is_pending}
use libsidplayfp.Scheduler.{Heap}

-- From `p` on the chain holds the events of `q`, in order, with their times, and ends in null.
abbrev pub Holds : Heap → EventId → Queue → Type 0
Holds h p [] = p ≡ 0
Holds h p ((e, t) ∷ q) = (p ≡ e) × (e ≢ 0) × ((h e).trigger_time ≡ t) × Holds h (h e).next q

-- No event stands in the queue twice.
abbrev pub NoRepeat : Queue → Type 0
NoRepeat [] = Unit
NoRepeat ((e, t) ∷ q) = (is_pending e q ≡ false) × NoRepeat q

-- A chain depends on the cells of its own events alone.
pub Holds-frame :
    (h g : Heap) (p : EventId) (q : Queue)
    → ((b : EventId) → is_pending b q ≡ true → g b ≡ h b)
    → Holds h p q
    → Holds g p q
Holds-frame h g p [] same c = c
Holds-frame h g p ((e, t) ∷ q) same c =
    let here : g e ≡ h e = same e (ground arith) in
    let rest = Holds-frame h g (h e).next q (λ b i. same b (ground arith)) c.3 in
    (c.0, c.1, rw here c.2, rw here rest)

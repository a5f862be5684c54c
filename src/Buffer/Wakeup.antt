-- ===== src/Buffer/Wakeup.antt =====
-- The waiting loop of `Read` of internal/buffer/buffer.go beside its timer goroutine, step by step: the
-- timer broadcasts without the mutex. Nobody writes, closes or unregisters meanwhile.
use interactive_process_mcp.Prelude.{Bool, true, false, ◌||◌, ◌≡◌, ◌≢◌, ◌⊎◌, inl, inr, refl, arith}

-- Where the reader stands: before its tests, behind them and on the way into `cond.Wait`, in the list of
-- those that wait, taken off that list by a broadcast, or back from the call.
pub data Place : Type 0 where
  testing entering asleep woken back : Place

pub data Timer : Type 0 where
  pending fired : Timer

-- `expired` is whether the deadline has passed, `cancelled` whether the context is done.
pub record Waiter : Type 0 where
  pub place : Place
  pub timer : Timer
  pub expired : Bool
  pub cancelled : Bool

abbrev pub begin : Waiter
begin = record { place = testing; timer = pending; expired = false; cancelled = false }

-- A broadcast takes only a reader that is in the list.
abbrev pub broadcast : Place → Place
broadcast asleep = woken
broadcast p = p

pub data Step (s : Waiter) : Waiter → Type 0 where
  expires : Step s (record s { expired = true })
  cancels : Step s (record s { cancelled = true })
  fires :
      s.timer ≡ pending
      → (s.expired || s.cancelled) ≡ true
      → Step s (record s { place = broadcast s.place; timer = fired })
  gives_up :
      s.place ≡ testing → (s.expired || s.cancelled) ≡ true → Step s (record s { place = back })
  goes_on :
      s.place ≡ testing
      → (s.expired || s.cancelled) ≡ false
      → Step s (record s { place = entering })
  sleeps : s.place ≡ entering → Step s (record s { place = asleep })
  wakes : s.place ≡ woken → Step s (record s { place = testing })

pub data Reach (s : Waiter) : Waiter → Type 0 where
  here : Reach s s
  next : {t u : Waiter} → Reach s t → Step t u → Reach s u

-- Behind its tests with no broadcast to come.
record IsLost (s : Waiter) : Type 0 where
  place_is : (s.place ≡ entering) ⊎ (s.place ≡ asleep)
  timer_is : s.timer ≡ fired

Step-IsLost : {s t : Waiter} → Step s t → IsLost s → IsLost t
Step-IsLost expires h = record { place_is = h.place_is; timer_is = h.timer_is }
Step-IsLost cancels h = record { place_is = h.place_is; timer_is = h.timer_is }
Step-IsLost (fires p e) h = absurd (ground (arith, p, h.timer_is))
Step-IsLost (gives_up p e) h = absurd (elim h.place_is [ inl q ↦ cc | inr q ↦ cc ])
Step-IsLost (goes_on p e) h = absurd (elim h.place_is [ inl q ↦ cc | inr q ↦ cc ])
Step-IsLost (sleeps p) h = record { place_is = inr refl; timer_is = h.timer_is }
Step-IsLost (wakes p) h = absurd (elim h.place_is [ inl q ↦ cc | inr q ↦ cc ])

Reach-IsLost : {s t : Waiter} → IsLost s → Reach s t → IsLost t
Reach-IsLost h here = h
Reach-IsLost h (next r st) = Step-IsLost st (Reach-IsLost h r)

not_back-IsLost : (s : Waiter) → IsLost s → s.place ≢ back
not_back-IsLost s h e = elim h.place_is [ inl q ↦ cc | inr q ↦ cc ]

-- The deadline alone brings the call back: nobody cancels the context, and nobody else wakes the reader.
abbrev pub Returns : Waiter → Type 0
Returns s = (u : Waiter) × Reach s u × (u.place ≡ back) × (u.cancelled ≡ s.cancelled)

from_testing : (s : Waiter) → s.place ≡ testing → Returns s
from_testing s h = (_, next (next here expires) (gives_up h refl), refl, refl)

from_woken : (s : Waiter) → s.place ≡ woken → Returns s
from_woken s h = (_, next (next (next here (wakes h)) expires) (gives_up refl refl), refl, refl)

from_asleep : (s : Waiter) → s.place ≡ asleep → s.timer ≡ pending → Returns s
from_asleep s h e = (
  _,
  next (next (next (next here expires) (fires e refl)) (wakes (rw h refl))) (gives_up refl refl),
  refl,
  refl,
)

from_entering : (s : Waiter) → s.place ≡ entering → s.timer ≡ pending → Returns s
from_entering s h e = (
  _,
  next (next (next (next (next here (sleeps h)) expires) (fires e refl)) (wakes refl))
      (gives_up refl refl),
  refl,
  refl,
)

-- What can become of a reader at a place with a timer.
abbrev pub Fate : Waiter → Place → Timer → Type 0
Fate s entering fired = (u : Waiter) → Reach s u → u.place ≢ back
Fate s asleep fired = (u : Waiter) → Reach s u → u.place ≢ back
Fate s place timer = Returns s

fate :
    (s : Waiter) (place : Place) (timer : Timer)
    → s.place ≡ place
    → s.timer ≡ timer
    → Fate s place timer
fate s testing pending h e = from_testing s h
fate s testing fired h e = from_testing s h
fate s entering pending h e = from_entering s h e
fate s entering fired h e =
    λ u r. not_back-IsLost u (Reach-IsLost (record { place_is = inl h; timer_is = e }) r)
fate s asleep pending h e = from_asleep s h e
fate s asleep fired h e =
    λ u r. not_back-IsLost u (Reach-IsLost (record { place_is = inr h; timer_is = e }) r)
fate s woken pending h e = from_woken s h
fate s woken fired h e = from_woken s h
fate s back pending h e = (s, here, h, refl)
fate s back fired h e = (s, here, h, refl)

abbrev lost : Waiter
lost = record { place = asleep; timer = fired; expired = true; cancelled = false }

lost-reached : Reach begin lost
lost-reached =
    next (next (next (next here (goes_on refl refl)) expires) (fires refl refl)) (sleeps refl)

-- Wherever a reader stands, if nobody else wakes it: when it is behind its tests and the timer has
-- broadcast, the call never returns, whatever happens; otherwise the deadline alone can bring it back,
-- without a cancellation. And a reader that has just begun can come to be asleep behind the broadcast,
-- the deadline passed and the context not cancelled.
pub timer-Fate :
    ((s : Waiter) → Fate s s.place s.timer)
    × ((t : Waiter) × Reach begin t
        × (t.place ≡ asleep)
        × (t.timer ≡ fired)
        × (t.expired ≡ true)
        × (t.cancelled ≡ false))
timer-Fate = (λ s. fate s s.place s.timer refl refl, (lost, lost-reached, refl, refl, refl, refl))

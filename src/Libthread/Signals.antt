-- ===== src/Libthread/Signals.antt =====
-- The queue of a condition variable: what waiting and signalling do to it.
use p.Base.{ℕ, suc, ◌+◌, ◌≡◌, refl, true, false, Bool, arith, List, [], ◌∷◌, length, length-append}
use p.Libthread.Cond.{
  BlockedThread, Cond, cond_wait, is_runnable, del_waiting, cond_signal, signal_first,
}

-- A cond_signal of the thread library directly after another one does nothing, however many
-- threads wait.
signal-signal : (cv : Cond) → cond_signal (cond_signal cv) ≡ cond_signal cv
unfolding cond_signal signal_first
signal-signal cv = signal_status cv.status cv.waiting
  where
    signal_status :
        (b : Bool) (q : List BlockedThread)
        → cond_signal (cond_signal (record { status = b; waiting = q }))
          ≡ cond_signal (record { status = b; waiting = q })
    signal_status false q = refl
    signal_status true [] = refl
    signal_status true (t ∷ q) = refl

length-signal_first : (q : List BlockedThread) → length (signal_first q) ≡ length q
unfolding signal_first
length-signal_first [] = refl
length-signal_first (t ∷ q) = refl

pub length-cond_signal : (cv : Cond) → length (cond_signal cv).waiting ≡ length cv.waiting
unfolding cond_signal
length-cond_signal cv = ground (arith, length-signal_first cv.waiting)

pub length-del_waiting :
    (thr : ℕ) (q : List BlockedThread)
    → is_runnable thr q ≡ true
    → suc (length (del_waiting thr q)) ≡ length q
unfolding del_waiting
length-del_waiting thr [] r = cc
length-del_waiting thr (t ∷ q) r = ground (arith, length-del_waiting thr q)

pub length-cond_wait :
    (thr : ℕ) (cv : Cond)
    → cv.status ≡ true
    → length (cond_wait thr cv).waiting ≡ length cv.waiting + 1
unfolding cond_wait
length-cond_wait thr cv valid =
    ground (arith, length-append cv.waiting (record { tid = thr; reject = false } ∷ []))

pub status-cond_wait : (thr : ℕ) (cv : Cond) → (cond_wait thr cv).status ≡ cv.status
unfolding cond_wait
status-cond_wait thr cv = ground arith

pub status-cond_signal : (cv : Cond) → (cond_signal cv).status ≡ cv.status
unfolding cond_signal
status-cond_signal cv = ground arith

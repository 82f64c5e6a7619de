-- ===== src/Ws/Hub/Shutdown.antt =====
-- internal/ws/hub.go: what is left once `Close` has run to its end.
use tracelab.Prelude.{
  ℕ, ◌<◌, ◌≡◌, refl, true, some, List, [], ◌∷◌, ◌++◌, arith, length, count, count-append, replicate,
  get_elem?,
}
use tracelab.Ws.Hub.{Chan, Hub, done, update, close}
use tracelab.Ws.Hub.Delivery.{channels}
use tracelab.Ws.Hub.Invariant.{owned, IsSafe, count-owned, close-IsSafe}
use tracelab.Ws.Hub.Safety.{settle_lem, settled-IsSafe}
use tracelab.Ws.Hub.Steps.{settle, settled, step, exec}

-- The heap after the close of each channel of a list.
abbrev close_all : List ℕ → (ℕ → Chan) → ℕ → Chan
close_all [] chans = chans
close_all (r ∷ rs) chans = close_all rs (update chans r (record (chans r) { closed = true }))

closed-close_all :
    (rs : List ℕ) (chans : ℕ → Chan) (r : ℕ)
    → (chans r).closed ≡ true
    → (close_all rs chans r).closed ≡ true
closed-close_all [] chans r h = h
closed-close_all (q ∷ rs) chans r h =
    closed-close_all rs (update chans q (record (chans q) { closed = true })) r (ground arith)

close_all-count :
    (rs : List ℕ) (chans : ℕ → Chan) (r : ℕ) → 0 < count r rs → (close_all rs chans r).closed ≡ true
close_all-count [] chans r h = absurd (omega arith)
close_all-count (q ∷ rs) chans r h =
    let chans' = update chans q (record (chans q) { closed = true }) in
    ground (arith, closed-close_all rs chans' r, close_all-count rs chans' r)

-- Closing the first of the left-over channels, again and again, closes all of them.
settle_all :
    (rs : List ℕ) (h : Hub)
    → h.pending ≡ rs
    → IsSafe h
    → exec (replicate (length rs) (settle 0)) h
      ≡ done (record h { chans = close_all rs h.chans; pending = [] })
unfolding exec
settle_all [] h e safe = ground arith
settle_all (r ∷ rs) h e safe =
    let first : get_elem? h.pending 0 ≡ some r = rw e in
    let ih = settle_all rs (settled r 0 h) (rw e) (settled-IsSafe 0 r h first safe) in
    let ran : step (settle 0) h ≡ done (settled r 0 h) =
      unfold step in settle_lem 0 r h first safe in
    rw ran ih

count-close : (r : ℕ) (h : Hub) → IsSafe h → count r (close h).pending ≡ count r (owned h)
unfolding close
count-close r h safe = ground (
  arith,
  safe.drained,
  count-owned r h,
  count-append r h.pending (channels h.subs ++ h.closed_ch ∷ []),
  count-append r (channels h.subs) (h.closed_ch ∷ []),
)

-- `Close` on a safe hub ends: when each channel that it and finished callers left to close is
-- closed, which needs no more steps than there are such channels, nothing is left to close, no
-- subscriber is registered, and every channel that the hub owned, `closedCh` among them, is closed.
pub exec-close :
    (h : Hub)
    → IsSafe h
    → (h' : Hub) × (exec (replicate (length (close h).pending) (settle 0)) (close h) ≡ done h')
      × (h'.pending ≡ [])
      × (h'.subs ≡ [])
      × (h'.closed ≡ true)
      × ((r : ℕ) → 0 < count r (owned h) → (h'.chans r).closed ≡ true)
exec-close h safe = (
  record (close h) { chans = close_all (close h).pending (close h).chans; pending = [] },
  settle_all (close h).pending (close h) refl (close-IsSafe h safe),
  refl,
  unfold close in ground (arith, safe.drained),
  unfold close in ground arith,
  λ r k. close_all-count (close h).pending (close h).chans r (omega (arith, count-close r h safe)),
)

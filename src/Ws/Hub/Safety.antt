-- ===== src/Ws/Hub/Safety.antt =====
-- internal/ws/hub.go: the interleavings of the hub's callers and the panics of channels.
use tracelab.Prelude.{
  ℕ, ◌+◌, ◌≤◌, ◌<◌, ◌≡◌, refl, false, some, List, [], ◌∷◌, ℤ, arith, inl, inr, Bool-cases,
  Option-cases, length, length-append, get_elem?,
}
use tracelab.Ws.Hub.{
  Event, Hub, Run, done, u64, update, new_hub, subscribe, unsubscribe, publish, close, close_chan,
}
use tracelab.Ws.Hub.Invariant.{
  IsSafe, count-owned, count-remove_at, subscribe-IsSafe, unsubscribe-IsSafe, close-IsSafe,
  length-take_oldest,
}
use tracelab.Ws.Hub.Delivery.{delivered, fan_out_lem}
use tracelab.Ws.Hub.Steps.{
  Action, join, send, cancel, shut, settle, receive, take_oldest, settle_at, settled, step, exec,
}

-- What `Publish` does to a safe hub that is not closed: no panic, and every channel as specified.
pub publish_lem :
    (evt : Event) (h : Hub)
    → IsSafe h
    → h.closed ≡ false
    → publish evt h ≡ done (record h { chans = delivered evt h.subs h.chans })
unfolding publish
publish_lem evt h safe o =
    let sent =
      fan_out_lem evt h.subs h.chans (λ r. ground (arith, count-owned r h, safe.once r))
        (λ r k. ground (arith, count-owned r h, safe.unclosed r)) in
    simp (o, sent)

delivered-IsSafe :
    (evt : Event) (h : Hub) → IsSafe h → IsSafe (record h { chans = delivered evt h.subs h.chans })
delivered-IsSafe evt h safe = record {
  once = safe.once;
  unclosed = λ r k. ground (arith, safe.unclosed r);
  allocated = safe.allocated;
  fits = λ r. ground (arith, safe.fits r, length-append (h.chans r).buf (evt ∷ []));
  ids_below = safe.ids_below;
  drained = safe.drained;
}

-- Closing the i-th of the channels that are left to close does not panic.
pub settle_lem :
    (i r : ℕ) (h : Hub)
    → get_elem? h.pending i ≡ some r
    → IsSafe h
    → settle_at (get_elem? h.pending i) i h ≡ done (settled r i h)
unfolding settle_at close_chan
settle_lem i r h e safe =
    ground (arith, e, count-owned r h, count-remove_at r i r h.pending e, safe.unclosed r)

pub settled-IsSafe :
    (i r : ℕ) (h : Hub) → get_elem? h.pending i ≡ some r → IsSafe h → IsSafe (settled r i h)
settled-IsSafe i r h e safe =
    let h' = settled r i h in
    let gone = λ (q : ℕ). count-remove_at q i r h.pending e in
    record {
      once = λ q. ground (arith, count-owned q h, count-owned q h', gone q, safe.once q);
      unclosed = λ q k.
          ground (arith, count-owned q h, count-owned q h', gone q, safe.unclosed q, safe.once q);
      allocated =
          λ q k. ground (arith, count-owned q h, count-owned q h', gone q, safe.allocated q);
      fits = λ q. ground (arith, safe.fits q);
      ids_below = safe.ids_below;
      drained = safe.drained;
    }

receive-IsSafe :
    (r : ℕ) (h : Hub)
    → IsSafe h
    → IsSafe (record h {
      chans = update h.chans r (record (h.chans r) { buf = take_oldest (h.chans r).buf });
    })
receive-IsSafe r h safe = record {
  once = safe.once;
  unclosed = λ q k. ground (arith, safe.unclosed q);
  allocated = safe.allocated;
  fits = λ q. ground (arith, safe.fits q, length-take_oldest (h.chans q).buf);
  ids_below = safe.ids_below;
  drained = safe.drained;
}

next_id-unsubscribe : (id : ℕ) (h : Hub) → (unsubscribe id h).next_id ≡ h.next_id
unfolding unsubscribe
next_id-unsubscribe id h = ground arith

-- One action of a safe hub ends without a panic in a safe hub, with at most one more id given out.
abbrev Keeps : ℕ → Run Hub → Type 0
Keeps n r = (h' : Hub) × (r ≡ done h') × IsSafe h' × (h'.next_id ≤ n + 1)

send-Keeps : (evt : Event) (h : Hub) → IsSafe h → Keeps h.next_id (publish evt h)
unfolding publish
send-Keeps evt h safe = elim (Bool-cases h.closed) [
  | inl c ↦ (h, ground arith, safe, omega arith)
  | inr o ↦ (
    record h { chans = delivered evt h.subs h.chans },
    publish_lem evt h safe o,
    delivered-IsSafe evt h safe,
    omega arith,
  )
]

step-Keeps : (a : Action) (h : Hub) → h.next_id + 1 < u64 → IsSafe h → Keeps h.next_id (step a h)
unfolding step
step-Keeps (join filter) h room safe = (
  (subscribe filter h).0,
  refl,
  subscribe-IsSafe filter h room safe,
  unfold subscribe in ground arith,
)
step-Keeps (send evt) h room safe = send-Keeps evt h safe
step-Keeps (cancel id) h room safe =
    (unsubscribe id h, refl, unsubscribe-IsSafe id h safe, omega (arith, next_id-unsubscribe id h))
step-Keeps shut h room safe = (close h, refl, close-IsSafe h safe, unfold close in ground arith)
step-Keeps (settle i) h room safe = elim (Option-cases (get_elem? h.pending i)) [
  | inl e ↦ (h, unfold settle_at in rw e, safe, omega arith)
  | inr (r, e) ↦ (settled r i h, settle_lem i r h e safe, settled-IsSafe i r h e safe, omega arith)
]
step-Keeps (receive r) h room safe = (_, refl, receive-IsSafe r h safe, omega arith)

pub exec-IsSafe :
    (as' : List Action) (h : Hub)
    → h.next_id + length as' < u64
    → IsSafe h
    → (h' : Hub) × (exec as' h ≡ done h') × IsSafe h'
unfolding exec
exec-IsSafe [] h room safe = (h, refl, safe)
exec-IsSafe (a ∷ as') h room safe =
    let (h', ran, safe', grown) = step-Keeps a h (omega arith) safe in
    let (h'', ran', safe'') = exec-IsSafe as' h' (omega arith) safe' in (h'', rw ran ran', safe'')

pub new_hub-IsSafe : (size : ℤ) → IsSafe (new_hub size)
unfolding new_hub
new_hub-IsSafe size = record {
  once = λ r. ground arith;
  unclosed = λ r k. ground arith;
  allocated = λ r k. ground arith;
  fits = λ r. omega arith;
  ids_below = tt;
  drained = λ c. refl;
}

-- From a new hub, whatever its callers do and however their critical sections, closes and
-- receives interleave, fewer than 2^64 actions never panic: no channel is closed twice and
-- nothing is sent on a closed one. The hub that they leave is safe.
pub exec-new_hub :
    (size : ℤ) (actions : List Action)
    → length actions < u64
    → (h : Hub) × (exec actions (new_hub size) ≡ done h) × IsSafe h
exec-new_hub size actions room =
    exec-IsSafe actions (new_hub size) (unfold new_hub in omega arith) (new_hub-IsSafe size)

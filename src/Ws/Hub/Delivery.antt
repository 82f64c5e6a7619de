-- ===== src/Ws/Hub/Delivery.antt =====
-- internal/ws/hub.go: whom `Publish` reaches.
use mathlib.Core.Path.{fun_ext}
use tracelab.Prelude.{
  ℕ, ◌≤◌, ◌<◌, ◌≡◌, refl, ap, ◌∙◌, Bool, true, false, ◌&&◌, List, [], ◌∷◌, ◌++◌, map, arith, ltb,
  ◌==◌, str_eq, if◌then◌else◌, length, any, count,
}
use tracelab.Ws.Hub.{Event, Chan, Subscriber, done, update, wants, try_send, fan_out}

abbrev pub channels : List Subscriber → List ℕ
channels ss = map (λ (s : Subscriber). s.ch) ss

-- The event behind what is buffered, if there is room.
abbrev pub offer : Event → Chan → Chan
offer evt c = if ltb (length c.buf) c.cap then record c { buf = c.buf ++ evt ∷ [] } else c

-- A subscriber without a filter takes every event, one with a filter those of its session.
abbrev pub listens : Subscriber → Event → Bool
listens s evt = if str_eq s.session_filter "" then true else str_eq s.session_filter evt.session_id

-- Channel `r` belongs to a subscriber who takes the event.
abbrev pub reaches : Event → List Subscriber → ℕ → Bool
reaches evt ss r = any (λ (s : Subscriber). listens s evt && s.ch == r) ss

-- What every channel holds after the event: no loop, and no order of the subscribers.
abbrev pub delivered : Event → List Subscriber → (ℕ → Chan) → ℕ → Chan
delivered evt ss chans r = if reaches evt ss r then offer evt (chans r) else chans r

reaches_count :
    (evt : Event) (ss : List Subscriber) (r : ℕ)
    → reaches evt ss r ≡ true
    → 0 < count r (channels ss)
reaches_count evt [] r h = cc
reaches_count evt (s ∷ ss) r h = ground (arith, reaches_count evt ss r)

module _ (evt : Event) where
  delivered_step :
      (s : Subscriber) (ss : List Subscriber) (chans : ℕ → Chan)
      → ((r : ℕ) → count r (channels (s ∷ ss)) ≤ 1)
      → (r : ℕ)
      → delivered evt ss
          (if wants s evt then update chans s.ch (offer evt (chans s.ch)) else chans)
          r
        ≡ delivered evt (s ∷ ss) chans r
  delivered_step s ss chans one r = ground (arith, one r, reaches_count evt ss r)

  try_send-open : (c : Chan) → c.closed ≡ false → try_send evt c ≡ done (offer evt c)
  unfolding try_send
  try_send-open c h = ground arith

  pub fan_out_lem :
      (ss : List Subscriber) (chans : ℕ → Chan)
      → ((r : ℕ) → count r (channels ss) ≤ 1)
      → ((r : ℕ) → 0 < count r (channels ss) → (chans r).closed ≡ false)
      → fan_out evt ss chans ≡ done (delivered evt ss chans)
  unfolding fan_out
  fan_out_lem [] chans one gate = refl
  fan_out_lem (s ∷ ss) chans one gate =
      let sent = update chans s.ch (offer evt (chans s.ch)) in
      let ih =
        fan_out_lem ss (if wants s evt then sent else chans) (λ r. ground (arith, one r))
          (λ r k. ground (arith, gate r, gate s.ch)) in
      ground (arith, try_send-open (chans s.ch), gate s.ch, ih)
      ∙ ap done (fun_ext (delivered_step s ss chans one))

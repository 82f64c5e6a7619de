-- ===== src/Tests/Hub.antt =====
-- internal/ws/hub.go at concrete inputs.
use tracelab.Prelude.{
  ℕ, true, ◌≡◌, refl, ◌<◌, List, [], ◌∷◌, pos, codes, length, arith, replicate, count,
}
use tracelab.Ws.Hub.{Event, Hub, done, new_hub, subscribe, publish, close}
use tracelab.Ws.Hub.Delivery.{delivered}
use tracelab.Ws.Hub.Invariant.{IsSafe, subscribe-IsSafe, owned}
use tracelab.Ws.Hub.Safety.{publish_lem, exec-new_hub, new_hub-IsSafe}
use tracelab.Ws.Hub.Shutdown.{exec-close}
use tracelab.Ws.Hub.Steps.{Action, join, send, cancel, shut, settle, exec}

abbrev evt : Event
evt = record {
  session_id = "s";
  ts = pos 7;
  source = "adb";
  level = "info";
  msg = codes "x";
  meta = "";
}

-- Two subscribers, one of another session; the second cancels while the hub shuts down.
abbrev script : List Action
script = join "s" ∷ join "t" ∷ send evt ∷ cancel 2 ∷ shut ∷ settle 1 ∷ settle 0 ∷ []

abbrev one : Hub
one = (subscribe "s" (new_hub (pos 2))).0

one-IsSafe : IsSafe one
unfolding new_hub
one-IsSafe = subscribe-IsSafe "s" (new_hub (pos 2)) (omega arith) (new_hub-IsSafe (pos 2))

exec-new_hub_example : (h : Hub) × (exec script (new_hub (pos 2)) ≡ done h) × IsSafe h
exec-new_hub_example = exec-new_hub (pos 2) script (omega arith)

publish_lem_example :
    publish evt one ≡ done (record one { chans = delivered evt one.subs one.chans })
unfolding subscribe new_hub
publish_lem_example = publish_lem evt one one-IsSafe refl

exec-close_example :
    (h' : Hub) × (exec (replicate (length (close one).pending) (settle 0)) (close one) ≡ done h')
    × (h'.pending ≡ [])
    × (h'.subs ≡ [])
    × (h'.closed ≡ true)
    × ((r : ℕ) → 0 < count r (owned one) → (h'.chans r).closed ≡ true)
exec-close_example = exec-close one one-IsSafe

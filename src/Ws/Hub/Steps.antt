-- ===== src/Ws/Hub/Steps.antt =====
-- internal/ws/hub.go: every interleaving of the hub's callers, as a list of actions.
use tracelab.Prelude.{ℕ, zero, suc, String, true, Option, none, some, List, [], ◌∷◌, get_elem?}
use tracelab.Ws.Hub.{
  Event, Hub, Run, done, ◌>>=◌, update, subscribe, unsubscribe, publish, close, close_chan,
}

-- What one goroutine does in one step. `settle i` closes the i-th channel that a finished
-- critical section has left to close; `receive r` takes the oldest event from channel `r`.
pub data Action : Type 0 where
  join : String → Action
  send : Event → Action
  cancel : ℕ → Action
  shut : Action
  settle : ℕ → Action
  receive : ℕ → Action

abbrev pub remove_at : ℕ → List ℕ → List ℕ
remove_at i [] = []
remove_at zero (x ∷ xs) = xs
remove_at (suc i) (x ∷ xs) = x ∷ remove_at i xs

abbrev pub take_oldest : List Event → List Event
take_oldest [] = []
take_oldest (e ∷ es) = es

-- The hub after the close of channel `r`, which stood at place `i` of `pending`.
abbrev pub settled : ℕ → ℕ → Hub → Hub
settled r i h = record h {
  chans = update h.chans r (record (h.chans r) { closed = true });
  pending = remove_at i h.pending;
}

unfoldable pub settle_at : Option ℕ → ℕ → Hub → Run Hub
settle_at none i h = done h
settle_at (some r) i h = do
  chans ← close_chan r h.chans
  done (record h { chans = chans; pending = remove_at i h.pending })

unfoldable pub step : Action → Hub → Run Hub
unfolding settle_at
step (join filter) h = done (subscribe filter h).0
step (send evt) h = publish evt h
step (cancel id) h = done (unsubscribe id h)
step shut h = done (close h)
step (settle i) h = settle_at (get_elem? h.pending i) i h
step (receive r) h = done (record h {
  chans = update h.chans r (record (h.chans r) { buf = take_oldest (h.chans r).buf });
})

unfoldable pub exec : List Action → Hub → Run Hub
exec [] h = done h
exec (a ∷ as') h = do h' ← step a h; exec as' h'

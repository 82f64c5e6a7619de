-- ===== src/Ws/Hub.antt =====
-- internal/ws/hub.go: the hub, its subscribers and their channels.
--
-- Channels stand on a heap, so that a send on a closed channel and a second close are run-time
-- panics here too. Each method is the part that it runs under the hub's mutex; what it closes
-- after the unlock is left in `pending` and closed by a later action, so that every
-- interleaving of the callers is a list of actions.
pub mod Steps
pub mod Delivery
pub mod Invariant
pub mod Safety
pub mod Shutdown
use tracelab.Prelude.{
  ℕ, ◌+◌, ◌%◌, ◌^◌, String, Bool, true, false, ◌||◌, Option, none, some, List, [], ◌∷◌, ◌++◌, map,
  ℤ, pos, negsuc, ltb, ◌==◌, str_eq, if◌then◌else◌, length, Bytes,
}

-- `Event`; `meta` is the raw JSON, empty for none.
pub record Event : Type 0 where
  pub session_id : String
  pub ts : ℤ
  pub source : String
  pub level : String
  pub msg : Bytes
  pub meta : String

-- A Go channel: what is buffered, the capacity, and whether it has been closed.
pub record Chan : Type 0 where
  pub buf : List Event
  pub cap : ℕ
  pub closed : Bool

-- `subscriber`; `ch` is the channel's place on the heap.
pub record Subscriber : Type 0 where
  pub id : ℕ
  pub session_filter : String
  pub ch : ℕ

-- `Hub`, the heap of channels, and the channels that callers have yet to close.
pub record Hub : Type 0 where
  pub subs : List Subscriber
  pub next_id : ℕ
  pub buf_size : ℕ
  pub closed : Bool
  pub closed_ch : ℕ
  pub chans : ℕ → Chan
  pub next_ch : ℕ
  pub pending : List ℕ

-- A Go run-time panic, or the value.
pub data Run {ℓ} (A : Type ℓ) : Type ℓ where
  done : A → Run A
  panic : Run A

infixl 5 ◌>>=◌
abbrev pub ◌>>=◌ {ℓ κ} : {A : Type ℓ} {B : Type κ} → Run A → (A → Run B) → Run B
done a >>= f = f a
panic >>= f = panic

abbrev pub u64 : ℕ
u64 = 2 ^ 64

-- A write on the heap.
abbrev pub update : (ℕ → Chan) → ℕ → Chan → ℕ → Chan
update chans r c j = if j == r then c else chans j

-- `make(chan Event, n)`
abbrev pub make : ℕ → Chan
make n = record { buf = []; cap = n; closed = false }

-- The default for `bufSize <= 0`.
abbrev pub mailbox_size : ℤ → ℕ
mailbox_size (pos n) = if n == 0 then 64 else n
mailbox_size (negsuc n) = 64

-- `NewHub`; place 0 of the heap is `closedCh`.
unfoldable pub new_hub : ℤ → Hub
new_hub size = record {
  subs = [];
  next_id = 0;
  buf_size = mailbox_size size;
  closed = false;
  closed_ch = 0;
  chans = λ _. make 0;
  next_ch = 1;
  pending = [];
}

-- `m[id] = s`, `m[id]` and `delete(m, id)` on the map of subscribers.
abbrev pub put_sub : Subscriber → List Subscriber → List Subscriber
put_sub s [] = s ∷ []
put_sub s (t ∷ ts) = if t.id == s.id then s ∷ ts else t ∷ put_sub s ts

abbrev pub find_sub : ℕ → List Subscriber → Option Subscriber
find_sub id [] = none
find_sub id (t ∷ ts) = if t.id == id then some t else find_sub id ts

abbrev pub delete_sub : ℕ → List Subscriber → List Subscriber
delete_sub id [] = []
delete_sub id (t ∷ ts) = if t.id == id then ts else t ∷ delete_sub id ts

-- `Subscribe`: the channel that the caller gets, and the id that its cancel func holds, if any.
-- After `Close` the channel is made closed.
unfoldable pub subscribe : String → Hub → Hub × ℕ × Option ℕ
subscribe filter h =
    if h.closed
    then (
      record h {
        chans = update h.chans h.next_ch (record (make 0) { closed = true });
        next_ch = h.next_ch + 1;
      },
      h.next_ch,
      none,
    )
    else (let id = (h.next_id + 1) % u64 in
        (
          record h {
            subs = put_sub (record { id = id; session_filter = filter; ch = h.next_ch }) h.subs;
            next_id = id;
            chans = update h.chans h.next_ch (make h.buf_size);
            next_ch = h.next_ch + 1;
          },
          h.next_ch,
          some id,
        ))

-- `unsubscribe` up to its unlock; the close of the channel is left pending.
unfoldable pub unsubscribe : ℕ → Hub → Hub
unsubscribe id h = elim (find_sub id h.subs) [
  | none ↦ h
  | some s ↦ record h { subs = delete_sub id h.subs; pending = h.pending ++ s.ch ∷ [] }
]

-- `s.sessionFilter != "" && s.sessionFilter != evt.SessionID`, negated
abbrev pub wants : Subscriber → Event → Bool
wants s evt = str_eq s.session_filter "" || str_eq s.session_filter evt.session_id

-- `select { case s.ch <- evt: default: }`
unfoldable pub try_send : Event → Chan → Run Chan
try_send evt c =
    if c.closed
    then panic
    else done (if ltb (length c.buf) c.cap then record c { buf = c.buf ++ evt ∷ [] } else c)

-- The loop of `Publish` over the subscribers.
unfoldable pub fan_out : Event → List Subscriber → (ℕ → Chan) → Run (ℕ → Chan)
fan_out evt [] chans = done chans
fan_out evt (s ∷ ss) chans =
    let rest = fan_out evt ss in
    if wants s evt
    then (do c ← try_send evt (chans s.ch); rest (update chans s.ch c))
    else rest chans

-- `Publish`
unfoldable pub publish : Event → Hub → Run Hub
publish evt h =
    if h.closed
    then done h
    else (do chans ← fan_out evt h.subs h.chans; done (record h { chans = chans }))

-- `SubscriberCount`
unfoldable pub subscriber_count : Hub → ℕ
subscriber_count h = length h.subs

-- `Close` up to its unlock; the channels of all subscribers and `closedCh` are left to close.
unfoldable pub close : Hub → Hub
close h = if h.closed then h else record h {
  closed = true;
  subs = [];
  pending = h.pending ++ (map (λ (s : Subscriber). s.ch) h.subs ++ h.closed_ch ∷ []);
}

-- The builtin `close(ch)`.
unfoldable pub close_chan : ℕ → (ℕ → Chan) → Run (ℕ → Chan)
close_chan r chans =
    if (chans r).closed then panic else done (update chans r (record (chans r) { closed = true }))

-- ===== src/Adb/Bridge/Loop/Sessions.antt =====
-- internal/adb/bridge.go: the sessions that the bridge opens and ends.
use tracelab.Prelude.{
  ℕ, ◌+◌, String, ◌≡◌, ◌≢◌, refl, Bool, true, false, Option, none, some, List, [], ◌∷◌, ◌++◌, ℤ,
  pos, int_leb, str_eq, eq_iff, length, All, All-append, Bool-cases, inl, inr,
}
use mathlib.Core.Option
use tracelab.Adb.Logcat.{LogcatLine, map_logcat_level}
use tracelab.Adb.Bridge.{
  BridgeConfig, Effect, created, inserted, published, ended, PendingEvent, pending_event,
  line_to_event, Signal, line, eof, tick, cancelled, Stop, waiting, stream_ended, ctx_done, Pump,
  start, insert_batch, flush, publish, take_line, take_kept, on_line, pump,
}
use tracelab.Adb.Bridge.Loop.{
  Outcome, clean, ctx_error, other_error, running, Created, session, refused, Stream, lines, failed,
  Attempt, Once, end_session, finish, run_once, Trace, reset, reconnect, after, run,
}
use tracelab.Store.Schema.{Event}
use tracelab.Ws.Hub.{Event as WsEvent}

-- An effect that belongs to session `t`, inside it.
abbrev InSession : String → Effect → Type 0
InSession t (inserted s es) = s ≡ t
InSession t (published e) = e.session_id ≡ t
InSession t (created s) = ⊥
InSession t (ended s) = ⊥

-- From the open session `o`, if any, the effects open and end sessions in turn, and whatever is
-- inserted or published belongs to the session that is open. At the end `o'` is open.
abbrev pub Bracketed : Option String → List Effect → Option String → Type 0
Bracketed o [] o' = o ≡ o'
Bracketed none (created s ∷ fx) o' = Bracketed (some s) fx o'
Bracketed none (inserted s es ∷ fx) o' = ⊥
Bracketed none (published e ∷ fx) o' = ⊥
Bracketed none (ended s ∷ fx) o' = ⊥
Bracketed (some t) (created s ∷ fx) o' = ⊥
Bracketed (some t) (inserted s es ∷ fx) o' = (s ≡ t) × Bracketed (some t) fx o'
Bracketed (some t) (published e ∷ fx) o' = (e.session_id ≡ t) × Bracketed (some t) fx o'
Bracketed (some t) (ended s ∷ fx) o' = (s ≡ t) × Bracketed none fx o'

Bracketed-inside :
    (t : String) (fx gx : List Effect) (o : Option String)
    → All (InSession t) fx
    → Bracketed (some t) gx o
    → Bracketed (some t) (fx ++ gx) o
Bracketed-inside t [] gx o h k = k
Bracketed-inside t (inserted s es ∷ fx) gx o h k = (h.0, Bracketed-inside t fx gx o h.1 k)
Bracketed-inside t (published e ∷ fx) gx o h k = (h.0, Bracketed-inside t fx gx o h.1 k)
Bracketed-inside t (created s ∷ fx) gx o h k = absurd h.0
Bracketed-inside t (ended s ∷ fx) gx o h k = absurd h.0

Bracketed-append :
    (o p q : Option String) (fx gx : List Effect)
    → Bracketed o fx p
    → Bracketed p gx q
    → Bracketed o (fx ++ gx) q
Bracketed-append o p q [] gx h k = rw h k
Bracketed-append none p q (created s ∷ fx) gx h k = Bracketed-append (some s) p q fx gx h k
Bracketed-append none p q (inserted s es ∷ fx) gx h k = absurd h
Bracketed-append none p q (published e ∷ fx) gx h k = absurd h
Bracketed-append none p q (ended s ∷ fx) gx h k = absurd h
Bracketed-append (some t) p q (created s ∷ fx) gx h k = absurd h
Bracketed-append (some t) p q (inserted s es ∷ fx) gx h k =
    (h.0, Bracketed-append (some t) p q fx gx h.1 k)
Bracketed-append (some t) p q (published e ∷ fx) gx h k =
    (h.0, Bracketed-append (some t) p q fx gx h.1 k)
Bracketed-append (some t) p q (ended s ∷ fx) gx h k = (h.0, Bracketed-append none p q fx gx h.1 k)

module _ (build_meta : LogcatLine → String → String) (cfg : BridgeConfig) (t : String) where
  abbrev IsOurs : Option PendingEvent → Type 0
  IsOurs none = Unit
  IsOurs (some e) = e.ws_event.session_id ≡ t

  map-IsOurs :
      (f : String → PendingEvent) (o : Option String)
      → ((level : String) → (f level).ws_event.session_id ≡ t)
      → IsOurs (Option.map f o)
  map-IsOurs f none h = tt
  map-IsOurs f (some level) h = h level

  line_to_event-IsOurs : (l : LogcatLine) (now : ℤ) → IsOurs (line_to_event build_meta cfg t l now)
  unfolding line_to_event
  line_to_event-IsOurs l now =
      map-IsOurs (pending_event build_meta cfg t l now) (map_logcat_level l.level) (λ level. refl)

  insert_batch-InSession : (es : List Event) → All (InSession t) (insert_batch t es)
  insert_batch-InSession [] = tt
  insert_batch-InSession (e ∷ es) = (refl, tt)

  flush-InSession : (p : Pump) → All (InSession t) p.effects → All (InSession t) (flush t p).effects
  unfolding flush
  flush-InSession p h = All-append (InSession t) p.effects _ h (insert_batch-InSession p.buf)

  publish-InSession :
      (e : WsEvent) → e.session_id ≡ t → All (InSession t) (publish build_meta cfg t e)
  publish-InSession e h = elim (Bool-cases cfg.has_hub) [ inl k ↦ rw k (h, tt) | inr k ↦ rw k tt ]

  take_kept-InSession :
      (o : Option PendingEvent) (p : Pump)
      → IsOurs o
      → All (InSession t) p.effects
      → All (InSession t) (take_kept build_meta cfg t o p).effects
  unfolding take_line
  take_kept-InSession none p ours h = h
  take_kept-InSession (some e) p ours h =
      let sent = p.effects ++ publish build_meta cfg t e.ws_event in
      let q : Pump = record p {
        got_any = true;
        buf = p.buf ++ e.store_event ∷ [];
        effects = sent;
      } in
      let ok = All-append (InSession t) p.effects _ h (publish-InSession e.ws_event ours) in
      elim (Bool-cases (int_leb cfg.batch_size (pos (length q.buf)))) [
        | inl full ↦ rw full (flush-InSession q ok)
        | inr room ↦ rw room ok
      ]

  on_line-InSession :
      (l : LogcatLine) (now : ℤ) (p : Pump)
      → All (InSession t) p.effects
      → All (InSession t) (on_line build_meta cfg t l now p).effects
  unfolding on_line
  on_line-InSession l now p h = take_kept-InSession _ p (line_to_event-IsOurs l now) h

  pump-InSession :
      (ss : List Signal) (p : Pump)
      → All (InSession t) p.effects
      → All (InSession t) (pump build_meta cfg t ss p).0.effects
  unfolding pump
  pump-InSession [] p h = h
  pump-InSession (line l now ∷ ss) p h =
      pump-InSession ss (on_line build_meta cfg t l now p) (on_line-InSession l now p h)
  pump-InSession (eof ∷ ss) p h = flush-InSession p h
  pump-InSession (tick ∷ ss) p h = pump-InSession ss (flush t p) (flush-InSession p h)
  pump-InSession (cancelled ∷ ss) p h = flush-InSession p h

-- The store never gives out the empty id.
abbrev pub IsNamed : Created → Type 0
IsNamed (session s) = s ≢ ""
IsNamed (refused e) = Unit

end_session-Bracketed : (s : String) → s ≢ "" → Bracketed (some s) (end_session s) none
end_session-Bracketed s named = elim (Bool-cases (str_eq s "")) [
  | inl e ↦ absurd (named ((eq_iff s "").0 e))
  | inr e ↦ rw e (refl, refl)
]

-- The effects of a connection that has returned.
abbrev Ends : Once → Type 0
Ends r = r.outcome ≢ running → Bracketed none r.effects none

finish-Ends :
    (s : String) (stop : Stop) (got : Bool) (fx : List Effect)
    → s ≢ ""
    → All (InSession s) fx
    → Ends (finish s stop got fx)
finish-Ends s waiting got fx named h ret = absurd (ret refl)
finish-Ends s stream_ended got fx named h ret =
    Bracketed-inside s fx (end_session s) none h (end_session-Bracketed s named)
finish-Ends s ctx_done got fx named h ret =
    Bracketed-inside s fx (end_session s) none h (end_session-Bracketed s named)

module _ (build_meta : LogcatLine → String → String) (cfg : BridgeConfig) where
  run_once-Ends : (c : Created) (st : Stream) → IsNamed c → Ends (run_once build_meta cfg c st)
  unfolding run_once
  run_once-Ends (refused e) st named ret = refl
  run_once-Ends (session s) (failed e) named ret = end_session-Bracketed s named
  run_once-Ends (session s) (lines ss) named ret =
      let (p, stop) = pump build_meta cfg s ss start in
      finish-Ends s stop p.got_any p.effects named (pump-InSession build_meta cfg s ss start tt) ret

  reconnect-Bracketed :
      (n : ℕ) (r : Once) (c : Bool) (rest : Trace)
      → Bracketed none r.effects none
      → (rest.returned ≡ true → Bracketed none rest.effects none)
      → (reconnect cfg n r c rest).returned ≡ true
      → Bracketed none (reconnect cfg n r c rest).effects none
  reconnect-Bracketed n r true rest h k ret = h
  reconnect-Bracketed n r false rest h k ret =
      Bracketed-append none none none r.effects rest.effects h (k ret)

  after-Bracketed :
      (out : Outcome) (n : ℕ) (r : Once) (c : Bool) (rest : Trace)
      → (out ≢ running → Bracketed none r.effects none)
      → (rest.returned ≡ true → Bracketed none rest.effects none)
      → (after cfg out n r c rest).returned ≡ true
      → Bracketed none (after cfg out n r c rest).effects none
  after-Bracketed clean n r c rest h k ret = reconnect-Bracketed n r c rest (h (λ e. cc)) k ret
  after-Bracketed other_error n r c rest h k ret =
      reconnect-Bracketed n r c rest (h (λ e. cc)) k ret
  after-Bracketed ctx_error n r c rest h k ret = h (λ e. cc)
  after-Bracketed running n r c rest h k ret = cc

  -- When `Run` returns, however often it reconnected and whatever failed on the way, the sessions
  -- that it created were each ended before the next was created, none is left open, and every
  -- batch and broadcast belongs to the session that was open. (The ids of the store are not empty.)
  pub run-Bracketed :
      (attempt : ℕ) (rounds : List Attempt)
      → All (λ (a : Attempt). IsNamed a.create) rounds
      → (run build_meta cfg attempt rounds).returned ≡ true
      → Bracketed none (run build_meta cfg attempt rounds).effects none
  unfolding run
  run-Bracketed attempt [] named ret = cc
  run-Bracketed attempt (a ∷ as') named ret = elim (Bool-cases a.cancelled_before) [
    | inl c ↦ rw c refl
    | inr c ↦
        let r = run_once build_meta cfg a.create a.stream in
        rw c (
          after-Bracketed r.outcome (reset r attempt) r a.cancelled_in_wait _
            (run_once-Ends a.create a.stream named.0)
            (run-Bracketed (reset r attempt + 1) as' named.1) (rw c at ret))
  ]

-- ===== src/Adb/Bridge/Broadcast.antt =====
-- internal/adb/bridge.go: what `pump` publishes.
use tracelab.Prelude.{
  String, ◌≡◌, refl, sym, ap, ◌∙◌, true, Option, none, some, List, [], ◌∷◌, ◌++◌, map, append-nil,
  append_assoc, map-append, arith, ℤ, pos, int_leb, if◌then◌else◌, length, Bool-cases, inl, inr,
}
use tracelab.Adb.Logcat.{LogcatLine}
use tracelab.Adb.Bridge.{
  BridgeConfig, Effect, created, inserted, published, ended, PendingEvent, line_to_event, Signal,
  line, eof, tick, cancelled, Pump, start, insert_batch, flush, publish, take_line, take_kept,
  on_line, pump,
}
use tracelab.Store.Schema.{Event}
use tracelab.Ws.Hub.{Event as WsEvent}
use tracelab.Adb.Bridge.Batching.{cons_kept, kept}

-- The events that went to the hub, in order.
abbrev pub broadcast : List Effect → List WsEvent
broadcast [] = []
broadcast (created s ∷ fx) = broadcast fx
broadcast (inserted s es ∷ fx) = broadcast fx
broadcast (published e ∷ fx) = e ∷ broadcast fx
broadcast (ended s ∷ fx) = broadcast fx

broadcast-append : (fx gx : List Effect) → broadcast (fx ++ gx) ≡ broadcast fx ++ broadcast gx
broadcast-append [] gx = refl
broadcast-append (created s ∷ fx) gx = broadcast-append fx gx
broadcast-append (inserted s es ∷ fx) gx = broadcast-append fx gx
broadcast-append (published e ∷ fx) gx = ap (◌∷◌ e) (broadcast-append fx gx)
broadcast-append (ended s ∷ fx) gx = broadcast-append fx gx

broadcast-insert_batch : (s : String) (es : List Event) → broadcast (insert_batch s es) ≡ []
broadcast-insert_batch s [] = refl
broadcast-insert_batch s (e ∷ es) = refl

module _ (build_meta : LogcatLine → String → String) (cfg : BridgeConfig)
    (session_id : String) where
  abbrev shown : List PendingEvent → List WsEvent
  shown es = if cfg.has_hub then map (λ (e : PendingEvent). e.ws_event) es else []

  shown-append : (xs ys : List PendingEvent) → shown (xs ++ ys) ≡ shown xs ++ shown ys
  shown-append xs ys = ground (arith, map-append (λ (e : PendingEvent). e.ws_event) xs ys)

  broadcast-flush : (p : Pump) → broadcast (flush session_id p).effects ≡ broadcast p.effects
  unfolding flush
  broadcast-flush p =
      broadcast-append p.effects (insert_batch session_id p.buf)
      ∙ rw broadcast-insert_batch (append-nil (broadcast p.effects))

  broadcast-take_line :
      (e : PendingEvent) (p : Pump)
      → broadcast (take_line build_meta cfg session_id e p).effects
        ≡ broadcast p.effects ++ shown (e ∷ [])
  unfolding take_line
  broadcast-take_line e p =
      let sent = p.effects ++ publish build_meta cfg session_id e.ws_event in
      let q : Pump = record p {
        got_any = true;
        buf = p.buf ++ e.store_event ∷ [];
        effects = sent;
      } in
      let done : broadcast sent ≡ broadcast p.effects ++ shown (e ∷ []) =
        broadcast-append p.effects _ ∙ ap (λ es. broadcast p.effects ++ es) (ground arith) in
      elim (Bool-cases (int_leb cfg.batch_size (pos (length q.buf)))) [
        | inl full ↦ rw full (broadcast-flush q ∙ done)
        | inr room ↦ rw room done
      ]

  broadcast-take_kept :
      (o : Option PendingEvent) (p : Pump)
      → broadcast (take_kept build_meta cfg session_id o p).effects
        ≡ broadcast p.effects ++ shown (cons_kept build_meta cfg session_id o [])
  broadcast-take_kept none p = ground (arith, append-nil (broadcast p.effects))
  broadcast-take_kept (some e) p = broadcast-take_line e p

  shown-cons_kept :
      (o : Option PendingEvent) (es : List PendingEvent)
      → shown (cons_kept build_meta cfg session_id o es)
        ≡ shown (cons_kept build_meta cfg session_id o []) ++ shown es
  shown-cons_kept none es = ground arith
  shown-cons_kept (some e) es = shown-append (e ∷ []) es

  broadcast-stop : (p : Pump) → broadcast p.effects ≡ broadcast p.effects ++ shown []
  broadcast-stop p = ground (arith, append-nil (broadcast p.effects))

  broadcast-on_line :
      (l : LogcatLine) (now : ℤ) (p : Pump)
      → broadcast (on_line build_meta cfg session_id l now p).effects
        ≡ broadcast p.effects
          ++ shown (
              cons_kept build_meta cfg session_id
                (line_to_event build_meta cfg session_id l now)
                [])
  unfolding on_line
  broadcast-on_line l now p = broadcast-take_kept (line_to_event build_meta cfg session_id l now) p

  broadcast-pump_from :
      (ss : List Signal) (p : Pump)
      → broadcast (pump build_meta cfg session_id ss p).0.effects
        ≡ broadcast p.effects ++ shown (kept build_meta cfg session_id ss)
  unfolding pump
  broadcast-pump_from [] p = broadcast-stop p
  broadcast-pump_from (line l now ∷ ss) p =
      broadcast-pump_from ss (on_line build_meta cfg session_id l now p)
      ∙ ap (λ es. es ++ shown (kept build_meta cfg session_id ss)) (broadcast-on_line l now p)
      ∙ append_assoc (broadcast p.effects) _ (shown (kept build_meta cfg session_id ss))
      ∙ ap (λ es. broadcast p.effects ++ es)
          (sym (
            shown-cons_kept (line_to_event build_meta cfg session_id l now)
              (kept build_meta cfg session_id ss)))
  broadcast-pump_from (eof ∷ ss) p = broadcast-flush p ∙ broadcast-stop p
  broadcast-pump_from (tick ∷ ss) p =
      broadcast-pump_from ss (flush session_id p)
      ∙ ap (λ es. es ++ shown (kept build_meta cfg session_id ss)) (broadcast-flush p)
  broadcast-pump_from (cancelled ∷ ss) p = broadcast-flush p ∙ broadcast-stop p

  -- At every moment, stopped or not, the hub has been given every kept line that came so far, each
  -- once and in order, if a hub is set, and nothing if none is: the broadcast waits for no batch.
  pub broadcast-pump :
      (ss : List Signal)
      → broadcast (pump build_meta cfg session_id ss start).0.effects ≡ (
          if cfg.has_hub
          then map (λ (e : PendingEvent). e.ws_event) (kept build_meta cfg session_id ss)
          else [])
  broadcast-pump ss = broadcast-pump_from ss start

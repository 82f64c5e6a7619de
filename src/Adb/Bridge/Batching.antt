-- ===== src/Adb/Bridge/Batching.antt =====
-- internal/adb/bridge.go: what `pump` gives to the store.
use tracelab.Prelude.{
  String, ◌≡◌, ◌≢◌, refl, sym, ap, ◌∙◌, true, Option, none, some, List, [], ◌∷◌, ◌++◌, map,
  append-nil, append_assoc, arith, ℤ, pos, int_leb, length, Option-cases, Bool-cases, inl, inr,
}
use tracelab.Adb.Logcat.{LogcatLine}
use tracelab.Adb.Bridge.{
  BridgeConfig, Effect, created, inserted, published, ended, PendingEvent, line_to_event, Signal,
  line, eof, tick, cancelled, waiting, Pump, start, insert_batch, flush, publish, take_line,
  on_line, pump,
}
use tracelab.Store.Schema.{Event}
use tracelab.Ws.Hub.{Event as WsEvent}

-- The events that went to the store, in order.
abbrev pub stored : List Effect → List Event
stored [] = []
stored (created s ∷ fx) = stored fx
stored (inserted s es ∷ fx) = es ++ stored fx
stored (published e ∷ fx) = stored fx
stored (ended s ∷ fx) = stored fx

stored-append : (fx gx : List Effect) → stored (fx ++ gx) ≡ stored fx ++ stored gx
stored-append [] gx = refl
stored-append (created s ∷ fx) gx = stored-append fx gx
stored-append (inserted s es ∷ fx) gx =
    rw (stored-append fx gx) (sym (append_assoc es (stored fx) (stored gx)))
stored-append (published e ∷ fx) gx = stored-append fx gx
stored-append (ended s ∷ fx) gx = stored-append fx gx

stored-insert_batch : (s : String) (es : List Event) → stored (insert_batch s es) ≡ es
stored-insert_batch s [] = refl
stored-insert_batch s (e ∷ es) = append-nil (e ∷ es)

module _ (build_meta : LogcatLine → String → String) (cfg : BridgeConfig)
    (session_id : String) where
  abbrev pub cons_kept : Option PendingEvent → List PendingEvent → List PendingEvent
  cons_kept none es = es
  cons_kept (some e) es = e ∷ es

  -- The events of the lines that come before the stop, without those that are dropped.
  abbrev pub kept : List Signal → List PendingEvent
  kept [] = []
  kept (line l now ∷ ss) = cons_kept (line_to_event build_meta cfg session_id l now) (kept ss)
  kept (eof ∷ ss) = []
  kept (tick ∷ ss) = kept ss
  kept (cancelled ∷ ss) = []

  -- What the pump has taken over: in the store, or still in the buffer.
  abbrev taken : Pump → List Event
  taken p = stored p.effects ++ p.buf

  abbrev pub stores : List PendingEvent → List Event
  stores es = map (λ (e : PendingEvent). e.store_event) es

  taken-flush : (p : Pump) → taken (flush session_id p) ≡ taken p
  unfolding flush
  taken-flush p =
      append-nil _
      ∙ stored-append p.effects (insert_batch session_id p.buf)
      ∙ ap (λ es. stored p.effects ++ es) (stored-insert_batch session_id p.buf)

  stored-publish : (e : WsEvent) → stored (publish build_meta cfg session_id e) ≡ []
  stored-publish e = ground arith

  taken-take_line :
      (e : PendingEvent) (p : Pump)
      → taken (take_line build_meta cfg session_id e p) ≡ taken p ++ e.store_event ∷ []
  unfolding take_line
  taken-take_line e p =
      let sent = p.effects ++ publish build_meta cfg session_id e.ws_event in
      let q : Pump = record p {
        got_any = true;
        buf = p.buf ++ e.store_event ∷ [];
        effects = sent;
      } in
      let same : stored sent ≡ stored p.effects =
        stored-append p.effects _ ∙ rw stored-publish (append-nil (stored p.effects)) in
      let done : taken q ≡ taken p ++ e.store_event ∷ [] =
        rw same (sym (append_assoc (stored p.effects) p.buf (e.store_event ∷ []))) in
      elim (Bool-cases (int_leb cfg.batch_size (pos (length q.buf)))) [
        | inl full ↦ rw full (taken-flush q ∙ done)
        | inr room ↦ rw room done
      ]

  taken-on_line :
      (l : LogcatLine) (now : ℤ) (p : Pump)
      → taken (on_line build_meta cfg session_id l now p)
        ≡ taken p ++ stores (cons_kept (line_to_event build_meta cfg session_id l now) [])
  unfolding on_line
  taken-on_line l now p = elim (Option-cases (line_to_event build_meta cfg session_id l now)) [
    | inl e ↦ rw e (sym (append-nil (taken p)))
    | inr (evt, e) ↦ rw e (taken-take_line evt p)
  ]

  stores-cons_kept :
      (o : Option PendingEvent) (es : List PendingEvent)
      → stores (cons_kept o es) ≡ stores (cons_kept o []) ++ stores es
  stores-cons_kept none es = refl
  stores-cons_kept (some e) es = refl

  taken-pump :
      (ss : List Signal) (p : Pump)
      → taken (pump build_meta cfg session_id ss p).0 ≡ taken p ++ stores (kept ss)
  unfolding pump
  taken-pump [] p = sym (append-nil (taken p))
  taken-pump (line l now ∷ ss) p =
      taken-pump ss (on_line build_meta cfg session_id l now p)
      ∙ rw taken-on_line (append_assoc (taken p) _ (stores (kept ss)))
      ∙ ap (λ es. taken p ++ es)
          (sym (stores-cons_kept (line_to_event build_meta cfg session_id l now) (kept ss)))
  taken-pump (eof ∷ ss) p = taken-flush p ∙ sym (append-nil (taken p))
  taken-pump (tick ∷ ss) p =
      taken-pump ss (flush session_id p) ∙ ap (λ es. es ++ stores (kept ss)) (taken-flush p)
  taken-pump (cancelled ∷ ss) p = taken-flush p ∙ sym (append-nil (taken p))

  pump-flushed :
      (ss : List Signal) (p : Pump)
      → (pump build_meta cfg session_id ss p).1 ≢ waiting
      → (pump build_meta cfg session_id ss p).0.buf ≡ []
  unfolding pump flush
  pump-flushed [] p h = absurd (h refl)
  pump-flushed (line l now ∷ ss) p h = pump-flushed ss (on_line build_meta cfg session_id l now p) h
  pump-flushed (eof ∷ ss) p h = refl
  pump-flushed (tick ∷ ss) p h = pump-flushed ss (flush session_id p) h
  pump-flushed (cancelled ∷ ss) p h = refl

  -- When the pump stops, at the end of the stream or at a cancellation, the batches that it has
  -- given to the store are together the kept lines that came before the stop: each once, in order,
  -- with nothing left in the buffer.
  pub stored-pump :
      (ss : List Signal)
      → (pump build_meta cfg session_id ss start).1 ≢ waiting
      → (stored (pump build_meta cfg session_id ss start).0.effects ≡ stores (kept ss))
        × ((pump build_meta cfg session_id ss start).0.buf ≡ [])
  stored-pump ss h =
      let done = taken-pump ss start in
      let empty = pump-flushed ss start h in (sym (append-nil _) ∙ rw empty at done, empty)

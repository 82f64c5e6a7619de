-- ===== src/Adb/Bridge/Bounds.antt =====
-- internal/adb/bridge.go: how large the batches of `pump` are.
use tracelab.Prelude.{
  ℕ, suc, ◌≤◌, ◌<◌, String, ◌≡◌, refl, true, Option, none, some, List, [], ◌∷◌, ◌++◌, arith, pos,
  int_leb, length, length-append, Bool-cases, inl, inr,
}
use tracelab.Adb.Logcat.{LogcatLine}
use tracelab.Adb.Bridge.{
  BridgeConfig, Effect, created, inserted, published, ended, PendingEvent, line_to_event, Signal,
  line, eof, tick, cancelled, Pump, start, insert_batch, flush, publish, take_line, take_kept,
  on_line, pump,
}
use tracelab.Store.Schema.{Event}
use tracelab.Ws.Hub.{Event as WsEvent}

module _ (build_meta : LogcatLine → String → String) (cfg : BridgeConfig)
    (session_id : String) where
  -- Every batch is for this session, holds something, and no more than `n` events.
  abbrev pub Batches : ℕ → List Effect → Type 0
  Batches n [] = Unit
  Batches n (inserted s es ∷ fx) =
      (s ≡ session_id) × (0 < length es) × (length es ≤ n) × Batches n fx
  Batches n (created s ∷ fx) = Batches n fx
  Batches n (published e ∷ fx) = Batches n fx
  Batches n (ended s ∷ fx) = Batches n fx

  Batches-append :
      (n : ℕ) (fx gx : List Effect) → Batches n fx → Batches n gx → Batches n (fx ++ gx)
  Batches-append n [] gx h k = k
  Batches-append n (created s ∷ fx) gx h k = Batches-append n fx gx h k
  Batches-append n (inserted s es ∷ fx) gx h k = (h.0, h.1, h.2, Batches-append n fx gx h.3 k)
  Batches-append n (published e ∷ fx) gx h k = Batches-append n fx gx h k
  Batches-append n (ended s ∷ fx) gx h k = Batches-append n fx gx h k

  Batches-insert_batch :
      (n : ℕ) (es : List Event) → length es ≤ n → Batches n (insert_batch session_id es)
  Batches-insert_batch n [] h = tt
  Batches-insert_batch n (e ∷ es) h = (refl, omega arith, h, tt)

  Batches-publish : (n : ℕ) (e : WsEvent) → Batches n (publish build_meta cfg session_id e)
  Batches-publish n e = elim (Bool-cases cfg.has_hub) [ inl h ↦ rw h tt | inr h ↦ rw h tt ]

  module _ (m : ℕ) (size : cfg.batch_size ≡ pos (suc m)) where
    -- Between two rounds there is room for one more line.
    record Fits (p : Pump) : Type 0 where
      batches : Batches (suc m) p.effects
      room : length p.buf ≤ m

    flush-Batches :
        (p : Pump) → Batches (suc m) p.effects → length p.buf ≤ suc m → Fits (flush session_id p)
    unfolding flush
    flush-Batches p h k = record {
      batches = Batches-append (suc m) p.effects _ h (Batches-insert_batch (suc m) p.buf k);
      room = omega arith;
    }

    take_line-Fits :
        (e : PendingEvent) (p : Pump) → Fits p → Fits (take_line build_meta cfg session_id e p)
    unfolding take_line
    take_line-Fits e p f =
        let sent = p.effects ++ publish build_meta cfg session_id e.ws_event in
        let q : Pump = record p {
          got_any = true;
          buf = p.buf ++ e.store_event ∷ [];
          effects = sent;
        } in
        let ok =
          Batches-append (suc m) p.effects _ f.batches (Batches-publish (suc m) e.ws_event) in
        let grown = length-append p.buf (e.store_event ∷ []) in
        elim (Bool-cases (int_leb cfg.batch_size (pos (length q.buf)))) [
          | inl full ↦ rw full (flush-Batches q ok (omega (arith, grown, f.room)))
          | inr room ↦ rw room (record { batches = ok; room = ground (arith, grown, size, f.room) })
        ]

    take_kept-Fits :
        (o : Option PendingEvent) (p : Pump)
        → Fits p
        → Fits (take_kept build_meta cfg session_id o p)
    take_kept-Fits none p f = f
    take_kept-Fits (some e) p f = take_line-Fits e p f

    pump-Fits :
        (ss : List Signal) (p : Pump) → Fits p → Fits (pump build_meta cfg session_id ss p).0
    unfolding pump
    pump-Fits [] p f = f
    pump-Fits (line l now ∷ ss) p f =
        pump-Fits ss (on_line build_meta cfg session_id l now p)
          (unfold on_line in take_kept-Fits (line_to_event build_meta cfg session_id l now) p f)
    pump-Fits (eof ∷ ss) p f = flush-Batches p f.batches (omega (arith, f.room))
    pump-Fits (tick ∷ ss) p f =
        pump-Fits ss (flush session_id p) (flush-Batches p f.batches (omega (arith, f.room)))
    pump-Fits (cancelled ∷ ss) p f = flush-Batches p f.batches (omega (arith, f.room))

  -- With a positive batch size, every insert is for the session of the pump, never empty, and
  -- within that size, and what is buffered is always below it.
  pub pump-Batches :
      (m : ℕ) (ss : List Signal)
      → cfg.batch_size ≡ pos (suc m)
      → Batches (suc m) (pump build_meta cfg session_id ss start).0.effects
        × (length (pump build_meta cfg session_id ss start).0.buf ≤ m)
  pump-Batches m ss size =
      let f = pump-Fits m size ss start (record { batches = tt; room = omega arith }) in
      (f.batches, f.room)

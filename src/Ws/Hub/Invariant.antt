-- ===== src/Ws/Hub/Invariant.antt =====
-- internal/ws/hub.go: the invariant of the hub and its channels.
use tracelab.Prelude.{
  ℕ, zero, suc, ◌+◌, ◌%◌, ◌≤◌, ◌<◌, String, ◌≡◌, ap, ◌∙◌, true, false, none, some, List, [], ◌∷◌,
  ◌++◌, arith, ◌==◌, inl, inr, Bool-cases, Option-cases, if◌then◌else◌, length, count, count-append,
  get_elem?, All,
}
use tracelab.Ws.Hub.{
  Event, Subscriber, Hub, u64, put_sub, find_sub, delete_sub, subscribe, unsubscribe, close,
}
use tracelab.Ws.Hub.Delivery.{channels}
use tracelab.Ws.Hub.Steps.{remove_at, take_oldest}

-- The channels that the hub or a caller still has to close: one close each.
abbrev pub owned : Hub → List ℕ
owned h = (if h.closed then [] else h.closed_ch ∷ []) ++ (channels h.subs ++ h.pending)

pub record IsSafe (h : Hub) : Type 0 where
  pub once : (r : ℕ) → count r (owned h) ≤ 1
  pub unclosed : (r : ℕ) → 0 < count r (owned h) → (h.chans r).closed ≡ false
  pub allocated : (r : ℕ) → 0 < count r (owned h) → r < h.next_ch
  pub fits : (r : ℕ) → length (h.chans r).buf ≤ (h.chans r).cap
  pub ids_below : All (λ (s : Subscriber). s.id ≤ h.next_id) h.subs
  pub drained : h.closed ≡ true → h.subs ≡ []

-- How often a channel stands in `owned`, part by part.
pub count-owned :
    (r : ℕ) (h : Hub)
    → count r (owned h)
      ≡ count r (if h.closed then [] else h.closed_ch ∷ [])
        + (count r (channels h.subs) + count r h.pending)
count-owned r h =
    count-append r (if h.closed then [] else h.closed_ch ∷ []) (channels h.subs ++ h.pending)
    ∙ ap (λ (n : ℕ). count r (if h.closed then [] else h.closed_ch ∷ []) + n)
        (count-append r (channels h.subs) h.pending)

All-le :
    (n m : ℕ) (ss : List Subscriber)
    → n ≤ m
    → All (λ (t : Subscriber). t.id ≤ n) ss
    → All (λ (t : Subscriber). t.id ≤ m) ss
All-le n m [] le h = tt
All-le n m (t ∷ ts) le h = (omega arith, All-le n m ts le h.1)

count-put :
    (r : ℕ) (s : Subscriber) (ss : List Subscriber) (n : ℕ)
    → All (λ (t : Subscriber). t.id ≤ n) ss
    → n < s.id
    → count r (channels (put_sub s ss)) ≡ count r (channels ss) + count r (s.ch ∷ [])
count-put r s [] n h lt = omega arith
count-put r s (t ∷ ts) n h lt = ground (arith, count-put r s ts n h.1 lt)

All-put :
    (n m : ℕ) (s : Subscriber) (ss : List Subscriber)
    → All (λ (t : Subscriber). t.id ≤ n) ss
    → n ≤ m
    → s.id ≤ m
    → All (λ (t : Subscriber). t.id ≤ m) (put_sub s ss)
All-put n m s [] h le new = (new, tt)
All-put n m s (t ∷ ts) h le new = elim (Bool-cases (t.id == s.id)) [
  | inl e ↦ rw e (new, All-le n m ts le h.1)
  | inr e ↦ rw e (omega arith, All-put n m s ts h.1 le new)
]

All-delete :
    (n id : ℕ) (ss : List Subscriber)
    → All (λ (t : Subscriber). t.id ≤ n) ss
    → All (λ (t : Subscriber). t.id ≤ n) (delete_sub id ss)
All-delete n id [] h = tt
All-delete n id (t ∷ ts) h = elim (Bool-cases (t.id == id)) [
  | inl e ↦ rw e h.1
  | inr e ↦ rw e (h.0, All-delete n id ts h.1)
]

count-delete :
    (r id : ℕ) (ss : List Subscriber) (s : Subscriber)
    → find_sub id ss ≡ some s
    → count r (channels ss) ≡ count r (channels (delete_sub id ss)) + count r (s.ch ∷ [])
count-delete r id [] s h = cc
count-delete r id (t ∷ ts) s h = ground (arith, count-delete r id ts s)

pub count-remove_at :
    (r i q : ℕ) (xs : List ℕ)
    → get_elem? xs i ≡ some q
    → count r xs ≡ count r (remove_at i xs) + count r (q ∷ [])
count-remove_at r i q [] h = cc
count-remove_at r zero q (x ∷ xs) h = ground arith
count-remove_at r (suc i) q (x ∷ xs) h = omega (arith, count-remove_at r i q xs h)

pub length-take_oldest : (es : List Event) → length (take_oldest es) ≤ length es
length-take_oldest [] = omega arith
length-take_oldest (e ∷ es) = omega arith

pub subscribe-IsSafe :
    (filter : String) (h : Hub) → h.next_id + 1 < u64 → IsSafe h → IsSafe (subscribe filter h).0
unfolding subscribe
subscribe-IsSafe filter h room safe =
    let h' = (subscribe filter h).0 in
    let s : Subscriber = record {
      id = (h.next_id + 1) % u64;
      session_filter = filter;
      ch = h.next_ch;
    } in
    let grown = λ (r : ℕ). count-put r s h.subs h.next_id safe.ids_below (omega arith) in
    record {
      once = λ r.
          ground (arith, count-owned r h, count-owned r h', grown r, safe.once r, safe.allocated r);
      unclosed = λ r k. ground (
        arith,
        count-owned r h,
        count-owned r h',
        grown r,
        safe.once r,
        safe.allocated r,
        safe.unclosed r,
      );
      allocated = λ r k.
          ground (arith, count-owned r h, count-owned r h', grown r, safe.once r, safe.allocated r);
      fits = λ r. ground (arith, safe.fits r);
      drained = λ c. ground (arith, safe.drained);
      ids_below = elim (Bool-cases h.closed) [
        | inl c ↦ simp c safe.ids_below
        | inr o ↦
            simp o (All-put h.next_id s.id s h.subs safe.ids_below (omega arith) (omega arith))
      ];
    }

unsubscribe-none : (id : ℕ) (h : Hub) → find_sub id h.subs ≡ none → unsubscribe id h ≡ h
unfolding unsubscribe
unsubscribe-none id h e = ground arith

abbrev queue_close : ℕ → Subscriber → Hub → Hub
queue_close id s h = record h { subs = delete_sub id h.subs; pending = h.pending ++ s.ch ∷ [] }

unsubscribe-some :
    (id : ℕ) (h : Hub) (s : Subscriber)
    → find_sub id h.subs ≡ some s
    → unsubscribe id h ≡ queue_close id s h
unfolding unsubscribe
unsubscribe-some id h s e = ground arith

queue_close-IsSafe :
    (id : ℕ) (s : Subscriber) (h : Hub)
    → find_sub id h.subs ≡ some s
    → IsSafe h
    → IsSafe (queue_close id s h)
queue_close-IsSafe id s h e safe =
    let h' = queue_close id s h in
    let moved = λ (r : ℕ). count-delete r id h.subs s e in
    let queued = λ (r : ℕ). count-append r h.pending (s.ch ∷ []) in
    record {
      once = λ r. ground (arith, count-owned r h, count-owned r h', moved r, queued r, safe.once r);
      unclosed = λ r k.
          ground (arith, count-owned r h, count-owned r h', moved r, queued r, safe.unclosed r);
      allocated = λ r k.
          ground (arith, count-owned r h, count-owned r h', moved r, queued r, safe.allocated r);
      fits = safe.fits;
      ids_below = All-delete h.next_id id h.subs safe.ids_below;
      drained = λ c. rw (safe.drained c);
    }

pub unsubscribe-IsSafe : (id : ℕ) (h : Hub) → IsSafe h → IsSafe (unsubscribe id h)
unsubscribe-IsSafe id h safe = elim (Option-cases (find_sub id h.subs)) [
  | inl e ↦ rw (unsubscribe-none id h e) safe
  | inr (s, e) ↦ rw (unsubscribe-some id h s e) (queue_close-IsSafe id s h e safe)
]

pub close-IsSafe : (h : Hub) → IsSafe h → IsSafe (close h)
unfolding close
close-IsSafe h safe =
    let h' = close h in
    let queued = λ (r : ℕ). count-append r h.pending (channels h.subs ++ h.closed_ch ∷ []) in
    let inner = λ (r : ℕ). count-append r (channels h.subs) (h.closed_ch ∷ []) in
    record {
      once = λ r. ground (arith, count-owned r h, count-owned r h', queued r, inner r, safe.once r);
      unclosed = λ r k.
          ground (arith, count-owned r h, count-owned r h', queued r, inner r, safe.unclosed r);
      allocated = λ r k.
          ground (arith, count-owned r h, count-owned r h', queued r, inner r, safe.allocated r);
      fits = λ r. ground (arith, safe.fits r);
      drained = λ c. ground (arith, safe.drained);
      ids_below = elim (Bool-cases h.closed) [ inl c ↦ simp c safe.ids_below | inr o ↦ simp o tt ];
    }

-- ===== src/Http/Events/Paging.antt =====
-- internal/http/handlers.go: a client that follows `next_since_seq`.
use tracelab.Prelude.{
  ℕ, zero, suc, ◌≤◌, String, ◌≡◌, refl, sym, ap, ◌∙◌, Bool, true, false, ◌&&◌, List, [], ◌∷◌, ◌++◌,
  map, arith, pos, ltb, str_eq, if◌then◌else◌, length, take, drop, filter, All, Bool-cases, inl,
  inr,
}
use tracelab.Http.Events.{EventView, event_view, next_cursor, event_page}
use tracelab.Store.Events.{events_since, by_id}
use tracelab.Store.Events.Atomic.{IsSequenced}
use tracelab.Store.Query.{limit_or-suc, Ordered, order_by-Ordered, Ordered-filter}
use tracelab.Store.Schema.{EventRow, Db}

abbrev Rising : List EventRow → Type 0
Rising = Ordered (λ (a b : EventRow). ltb a.id b.id)

-- The rows behind a cursor.
abbrev pub matches : String → ℕ → EventRow → Bool
matches session since r = str_eq r.session_id session && ltb since r.id

abbrev pub behind : Db → String → ℕ → List EventRow
behind db session since = filter (matches session since) db.events

All-by_id :
    (x : EventRow) (rs : List EventRow)
    → All (λ (y : EventRow). ltb x.id y.id ≡ true) rs
    → All (λ (y : EventRow). by_id x y ≡ true) rs
All-by_id x [] h = tt
All-by_id x (r ∷ rs) h = (ground (arith, h.0), All-by_id x rs h.1)

Rising-by_id : (rs : List EventRow) → Rising rs → Ordered by_id rs
Rising-by_id [] h = tt
Rising-by_id (r ∷ rs) h = (All-by_id r rs h.0, Rising-by_id rs h.1)

cursor-le : (c : ℕ) (rs : List EventRow) → c ≤ next_cursor c rs
cursor-le c [] = omega arith
cursor-le c (r ∷ rs) = ground (arith, cursor-le r.id rs, cursor-le c rs)

filter-above :
    (c : ℕ) (rs : List EventRow)
    → All (λ (r : EventRow). ltb c r.id ≡ true) rs
    → filter (λ (r : EventRow). ltb c r.id) rs ≡ rs
filter-above c [] h = refl
filter-above c (r ∷ rs) h = rw (h.0, filter-above c rs h.1) refl

next_cursor-∷ :
    (c : ℕ) (r : EventRow) (rs : List EventRow)
    → ltb c r.id ≡ true
    → next_cursor c (r ∷ rs) ≡ next_cursor r.id rs
next_cursor-∷ c r rs h = ap (λ b. next_cursor (if b then r.id else c) rs) h

-- What lies behind the cursor of a page is what the page left.
filter-cursor :
    (n c : ℕ) (rs : List EventRow)
    → Rising rs
    → All (λ (r : EventRow). ltb c r.id ≡ true) rs
    → filter (λ (r : EventRow). ltb (next_cursor c (take n rs)) r.id) rs ≡ drop n rs
filter-cursor zero c rs h a = filter-above c rs a
filter-cursor (suc n) c [] h a = refl
filter-cursor (suc n) c (r ∷ rs) h a =
    let rest : filter (λ (s : EventRow). ltb (next_cursor r.id (take n rs)) s.id) rs ≡ drop n rs =
      filter-cursor n r.id rs h.1 h.0 in
    let shut : ltb (next_cursor r.id (take n rs)) r.id ≡ false =
      ground (arith, cursor-le r.id (take n rs)) in
    ap (λ k. filter (λ (s : EventRow). ltb k s.id) (r ∷ rs)) (next_cursor-∷ c r (take n rs) a.0)
    ∙ rw shut rest

filter-matches :
    (session : String) (c k : ℕ) (rs : List EventRow)
    → c ≤ k
    → filter (λ (r : EventRow). ltb k r.id) (filter (matches session c) rs)
      ≡ filter (matches session k) rs
filter-matches session c k [] le = refl
filter-matches session c k (r ∷ rs) le = ground (arith, filter-matches session c k rs le)

All-matches :
    (session : String) (c : ℕ) (rs : List EventRow)
    → All (λ (r : EventRow). ltb c r.id ≡ true) (filter (matches session c) rs)
All-matches session c [] = tt
All-matches session c (r ∷ rs) = elim (Bool-cases (matches session c r)) [
  | inl e ↦ rw e (ground arith, All-matches session c rs)
  | inr e ↦ rw e (All-matches session c rs)
]

-- One page and what follows it; an empty page ends the loop.
abbrev pub glue : List EventView → List EventView → List EventView
glue [] rest = []
glue (v ∷ vs) rest = v ∷ vs ++ rest

-- The events that a client collects when it asks again from `next_since_seq`.
unfoldable pub drain : Db → String → ℕ → ℕ → ℕ → List EventView
drain db session limit zero since = []
drain db session limit (suc fuel) since =
    let page = event_page db session since limit in
    glue page.events (drain db session limit fuel page.next_since_seq)

take-map-drop :
    (n : ℕ) (rs : List EventRow)
    → map event_view (take n rs) ++ map event_view (drop n rs) ≡ map event_view rs
take-map-drop zero rs = refl
take-map-drop (suc n) [] = refl
take-map-drop (suc n) (r ∷ rs) = ap (λ vs. event_view r ∷ vs) (take-map-drop n rs)

glue_lem :
    (n : ℕ) (rs : List EventRow)
    → glue (map event_view (take (suc n) rs)) (map event_view (drop (suc n) rs)) ≡ map event_view rs
glue_lem n [] = refl
glue_lem n (r ∷ rs) = take-map-drop (suc n) (r ∷ rs)

length-drop-suc : (n f : ℕ) (rs : List EventRow) → length rs ≤ suc f → length (drop (suc n) rs) ≤ f
length-drop-suc n f [] h = omega arith
length-drop-suc zero f (r ∷ rs) h = ground (arith, h)
length-drop-suc (suc n) f (r ∷ rs) h = length-drop-suc n f rs (ground (arith, h))

empty-if : (rs : List EventRow) → length rs ≤ 0 → [] ≡ map event_view rs
empty-if [] h = refl
empty-if (r ∷ rs) h = ground (arith, h)

module _ (db : Db) (session : String) (n : ℕ) (sequenced : IsSequenced db) where
  Rising-behind : (since : ℕ) → Rising (behind db session since)
  Rising-behind since =
      Ordered-filter (λ (a b : EventRow). ltb a.id b.id) (matches session since) db.events
        sequenced.rising

  page_rows :
      (since : ℕ)
      → events_since db session since (pos (suc n)) ≡ take (suc n) (behind db session since)
  unfolding events_since
  page_rows since = rw (limit_or-suc 500 n) (
      ap (take (suc n)) (
        order_by-Ordered by_id (behind db session since)
          (Rising-by_id (behind db session since) (Rising-behind since))))

  next-behind :
      (since : ℕ)
      → behind db session (next_cursor since (take (suc n) (behind db session since)))
        ≡ drop (suc n) (behind db session since)
  next-behind since =
      sym (
        filter-matches session since _ db.events
          (cursor-le since (take (suc n) (behind db session since))))
      ∙ filter-cursor (suc n) since (behind db session since) (Rising-behind since)
          (All-matches session since db.events)

  -- On a table whose ids rise in the order of insertion, a client that starts behind `since` and
  -- asks again from each `next_since_seq` collects every event of the session behind `since`, each
  -- once and in the order of their ids, whatever the positive limit; one request for each event is enough.
  pub drain_lem :
      (fuel since : ℕ)
      → length (behind db session since) ≤ fuel
      → drain db session (suc n) fuel since ≡ map event_view (behind db session since)
  unfolding drain event_page
  drain_lem zero since h = empty-if (behind db session since) h
  drain_lem (suc fuel) since h =
      let k = next_cursor since (take (suc n) (behind db session since)) in
      rw (page_rows since) (
        ap (glue (map event_view (take (suc n) (behind db session since)))) (
          drain_lem fuel k
            (rw (next-behind since) (length-drop-suc n fuel (behind db session since) h))
          ∙ ap (map event_view) (next-behind since))
        ∙ glue_lem n (behind db session since))

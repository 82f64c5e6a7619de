-- ===== src/Http/Events/Answers.antt =====
-- internal/http/handlers.go: what GET /events may answer.
use tracelab.Http.Events.{
  ListEventsResp, Response, bad_request, internal_error, success, event_view, event_page,
  list_events, since_param, limit_param, with_limit, with_since, parsed_limit,
}
use tracelab.Prelude.{
  ℕ, zero, suc, ◌≤◌, ◌<◌, String, ◌≡◌, refl, Bool, true, false, Option, none, some, List, [], ◌∷◌,
  map, ℤ, pos, negsuc, ltb, str_eq, length, take, filter, Bool-cases, inl, inr, arith, Bytes, atoi,
  ◌&&◌,
}
use tracelab.Store.Events.{by_id, events_since}
use tracelab.Store.Query.{limit_or, order_by}
use tracelab.Store.Schema.{EventRow, Db}

-- The events of an answer: at most 5000.
abbrev pub IsBounded : Response ListEventsResp → Type 0
IsBounded (bad_request e) = Unit
IsBounded internal_error = Unit
IsBounded (success r) = length r.events ≤ 5000

length-take : (n : ℕ) (rs : List EventRow) → length (map event_view (take n rs)) ≤ n
length-take zero rs = omega arith
length-take (suc n) [] = omega arith
length-take (suc n) (r ∷ rs) = omega (arith, length-take n rs)

parsed_limit-le :
    (z : Option ℤ) (limit : ℕ) → parsed_limit z ≡ some limit → (0 < limit) × (limit ≤ 5000)
parsed_limit-le none limit h = ground (arith, h)
parsed_limit-le (some (pos n)) limit h = ground (arith, h)
parsed_limit-le (some (negsuc n)) limit h = ground (arith, h)

limit_param-le :
    (raw : Bytes) (limit : ℕ) → limit_param raw ≡ some limit → (0 < limit) × (limit ≤ 5000)
unfolding limit_param
limit_param-le [] limit h = ground (arith, h)
limit_param-le (c ∷ cs) limit h = parsed_limit-le (atoi (c ∷ cs)) limit h

limit_or-pos : (n : ℕ) → 0 < n → limit_or 500 (pos n) ≡ n
limit_or-pos n h = ground (arith, h)

with_limit-IsBounded :
    (io : Bool) (db : Db) (session : String) (since : ℕ) (limit : Option ℕ)
    → ((n : ℕ) → limit ≡ some n → (0 < n) × (n ≤ 5000))
    → IsBounded (with_limit io db session since limit)
unfolding event_page events_since
with_limit-IsBounded io db session since none h = tt
with_limit-IsBounded false db session since (some n) h = tt
with_limit-IsBounded true db session since (some n) h =
    let (low, high) = h n refl in
    rw (limit_or-pos n low) (
      omega (
        arith,
        high,
        length-take n (
            order_by by_id
              (filter (λ (r : EventRow). str_eq r.session_id session && ltb since r.id) db.events)),
      ))

with_since-IsBounded :
    (io : Bool) (db : Db) (session : String) (since : Option ℕ) (limit : Bytes)
    → IsBounded (with_since io db session since limit)
with_since-IsBounded io db session none limit = tt
with_since-IsBounded io db session (some since) limit =
    with_limit-IsBounded io db session since (limit_param limit) (limit_param-le limit)

-- Whatever the query parameters are, absent, malformed or huge, an answer of GET /events holds
-- 5000 events at most.
pub list_events-IsBounded :
    (io : Bool) (db : Db) (session : String) (since limit : Bytes)
    → IsBounded (list_events io db session since limit)
unfolding list_events
list_events-IsBounded io db session since limit = elim (Bool-cases (str_eq session "")) [
  | inl e ↦ rw e tt
  | inr e ↦ rw e (with_since-IsBounded io db session (since_param since) limit)
]

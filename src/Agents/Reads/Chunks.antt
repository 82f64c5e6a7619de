-- ===== src/Agents/Reads/Chunks.antt =====
-- internal/store/agents.go: the chunks of the batched read of edges.
use tracelab.Agents.Reads.{
  AgentEdgeBundle, no_edges, agent_edges_for_spawn, bundle_at, is_in,
  append_agent_edges_for_spawn_chunk, each_chunk, agent_edges_for_spawn_ids,
}
use tracelab.Agents.Reads.Bundles.{bundle_of, join, append_chunk-at}
use tracelab.Agents.Tables.{AgentMailboxEdge}
use tracelab.Prelude.{
  ℕ, zero, suc, ◌≤◌, String, ◌≡◌, refl, sym, ap, ◌∙◌, subst, true, false, ◌||◌, some, List, [], ◌∷◌,
  ◌++◌, str_eq, eq_iff, length, take, drop, Assoc, lookup, Bool-cases, inl, inr, arith,
}
use tracelab.Store.Schema.{ok}

-- No id twice.
abbrev pub Unique : List String → Type 0
Unique [] = Unit
Unique (id ∷ ids) = (is_in ids id ≡ false) × Unique ids

is_in-append :
    (xs ys : List String) (id : String) → is_in (xs ++ ys) id ≡ (is_in xs id || is_in ys id)
is_in-append [] ys id = refl
is_in-append (x ∷ xs) ys id = ground (arith, is_in-append xs ys id)

Unique-apart :
    (xs ys : List String) (id : String)
    → Unique (xs ++ ys)
    → is_in xs id ≡ true
    → is_in ys id ≡ false
Unique-apart [] ys id u h = ground (arith, h)
Unique-apart (x ∷ xs) ys id u h = elim (Bool-cases (str_eq x id)) [
  | inl e ↦
      let gone : is_in (xs ++ ys) id ≡ false =
        subst (λ s. is_in (xs ++ ys) s ≡ false) ((eq_iff x id).0 e) u.0 in
      ground (arith, is_in-append xs ys id, gone)
  | inr e ↦ Unique-apart xs ys id u.1 (ground (arith, e, h))
]

Unique-rest : (xs ys : List String) → Unique (xs ++ ys) → Unique ys
Unique-rest [] ys u = u
Unique-rest (x ∷ xs) ys u = Unique-rest xs ys u.1

take-append-drop : (n : ℕ) (xs : List String) → take n xs ++ drop n xs ≡ xs
take-append-drop zero xs = refl
take-append-drop (suc n) [] = refl
take-append-drop (suc n) (x ∷ xs) = ap (λ u. x ∷ u) (take-append-drop n xs)

length-drop-le : (n : ℕ) (xs : List String) → length (drop n xs) ≤ length xs
length-drop-le zero xs = omega arith
length-drop-le (suc n) [] = omega arith
length-drop-le (suc n) (x ∷ xs) = omega (arith, length-drop-le n xs)

-- What the loop leaves at an id, when no id comes twice.
record IsBundled (table : List AgentMailboxEdge) (ids : List String)
    (before after : Assoc AgentEdgeBundle) : Type 0 where
  inside :
      (id : String)
      → is_in ids id ≡ true
      → bundle_at id after ≡ join (bundle_at id before) (bundle_of table id)
  outside : (id : String) → is_in ids id ≡ false → bundle_at id after ≡ bundle_at id before

each_chunk-IsBundled :
    (fuel n : ℕ) (table : List AgentMailboxEdge) (ids : List String)
    (bundles : Assoc AgentEdgeBundle)
    → length ids ≤ fuel
    → Unique ids
    → (out : Assoc AgentEdgeBundle) × (each_chunk fuel (suc n) table ids bundles ≡ some out)
      × IsBundled table ids bundles out
each_chunk-IsBundled fuel n table [] bundles h u =
    (bundles, refl, record { inside = λ id m. ground (arith, m); outside = λ id m. refl })
each_chunk-IsBundled zero n table (id ∷ ids) bundles h u = ground (arith, h)
each_chunk-IsBundled (suc fuel) n table (id ∷ ids) bundles h u =
    let chunk = take (suc n) (id ∷ ids) in
    let rest = drop (suc n) (id ∷ ids) in
    let both : chunk ++ rest ≡ id ∷ ids = take-append-drop (suc n) (id ∷ ids) in
    let split : Unique (chunk ++ rest) = subst Unique (sym both) u in
    let next = append_agent_edges_for_spawn_chunk table chunk bundles in
    let r =
      each_chunk-IsBundled fuel n table rest next (omega (arith, h, length-drop-le n ids))
        (Unique-rest chunk rest split) in
    let member = λ (k : String).
      let e : is_in (id ∷ ids) k ≡ (is_in chunk k || is_in rest k) =
        ap (λ l. is_in l k) (sym both) ∙ is_in-append chunk rest k in
      e in
    (
      r.0,
      r.1,
      record {
        inside = λ k m. elim (Bool-cases (is_in chunk k)) [
          | inl e ↦
              r.2.outside k (Unique-apart chunk rest k split e)
              ∙ append_chunk-at table chunk bundles k
              ∙ rw e refl
          | inr e ↦
              let later : is_in rest k ≡ true = ground (arith, e, m, member k) in
              let same : bundle_at k next ≡ bundle_at k bundles =
                append_chunk-at table chunk bundles k ∙ rw e refl in
              r.2.inside k later ∙ ap (λ b. join b (bundle_of table k)) same
        ];
        outside = λ k m.
            let gone : is_in chunk k ≡ false = ground (arith, m, member k) in
            let later : is_in rest k ≡ false = ground (arith, m, member k) in
            r.2.outside k later ∙ append_chunk-at table chunk bundles k ∙ rw gone refl;
      },
    )

-- For ids of which none comes twice, the batched read ends, and holds for each of them what the read of one
-- spawn answers, in its order, and nothing for any other id. The chunks of 500 do not show.
pub agent_edges_for_spawn_ids-each :
    (table : List AgentMailboxEdge) (ids : List String)
    → Unique ids
    → (out : Assoc AgentEdgeBundle) × (agent_edges_for_spawn_ids table ids ≡ some out)
      × ((id : String)
          → is_in ids id ≡ true
          → str_eq id "" ≡ false
          → agent_edges_for_spawn table id ≡ ok (bundle_at id out))
      × ((id : String) → is_in ids id ≡ false → bundle_at id out ≡ no_edges)
unfolding agent_edges_for_spawn_ids agent_edges_for_spawn lookup
agent_edges_for_spawn_ids-each table ids u =
    let r = each_chunk-IsBundled (length ids) 499 table ids [] (omega arith) u in
    (r.0, r.1, λ id m named. rw named (ap ok (sym (r.2.inside id m))), λ id m. r.2.outside id m)

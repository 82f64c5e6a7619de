-- ===== src/Agents/Reads/Bundles.antt =====
-- internal/store/agents.go: the batched read of edges against the read of one spawn.
use tracelab.Agents.Reads.{
  by_ts, select, edge_ts, edges_to, edges_from, AgentEdgeBundle, no_edges, bundle_at, scan_into,
  push_incoming, push_outgoing, to_id, from_id, is_in, append_agent_edges_for_spawn_chunk,
}
use tracelab.Agents.Tables.{AgentMailboxEdge}
use tracelab.Prelude.{
  String, ◌≡◌, refl, ap, ◌∙◌, Bool, List, [], ◌∷◌, ◌++◌, append-nil, append_assoc, str_eq, eq_iff,
  if◌then◌else◌, filter, Assoc, put, lookup-put, unix_nano, Bool-cases, inl, inr, arith,
}
use tracelab.Store.Query.{order_by}
use tracelab.Store.Sorting.{int_leb_trans, int_leb_total, filter-order_by}

abbrev Key : Type 0
Key = AgentMailboxEdge → String

abbrev Push : Type 0
Push = AgentMailboxEdge → AgentEdgeBundle → AgentEdgeBundle

abbrev push_all : Push → List AgentMailboxEdge → AgentEdgeBundle → AgentEdgeBundle
push_all push [] b = b
push_all push (e ∷ es) b = push_all push es (push e b)

abbrev at_key : Key → String → AgentMailboxEdge → Bool
at_key key id e = str_eq (key e) id

-- A scan pushes onto each bundle the rows of its id, in their order.
scan_into-at :
    (key : Key) (push : Push) (es : List AgentMailboxEdge) (bundles : Assoc AgentEdgeBundle)
    (id : String)
    → bundle_at id (scan_into key push es bundles)
      ≡ push_all push (filter (at_key key id) es) (bundle_at id bundles)
scan_into-at key push [] bundles id = refl
scan_into-at key push (e ∷ es) bundles id =
    let k = key e in
    let next = put k (push e (bundle_at k bundles)) bundles in
    let found = lookup-put k id (push e (bundle_at k bundles)) bundles in
    scan_into-at key push es next id ∙ elim (Bool-cases (str_eq k id)) [
      | inl f ↦
          let same : k ≡ id = (eq_iff k id).0 f in
          let head : bundle_at id next ≡ push e (bundle_at id bundles) =
            rw (found, f) (ap (λ u. push e (bundle_at u bundles)) same) in
          rw f (ap (λ u. push_all push (filter (at_key key id) es) u) head)
      | inr f ↦
          let head : bundle_at id next ≡ bundle_at id bundles = rw (found, f) refl in
          rw f (ap (λ u. push_all push (filter (at_key key id) es) u) head)
    ]

push_all_incoming :
    (es : List AgentMailboxEdge) (b : AgentEdgeBundle)
    → push_all push_incoming es b ≡ record b { incoming = b.incoming ++ es }
push_all_incoming [] b = simp (append-nil b.incoming)
push_all_incoming (e ∷ es) b =
    push_all_incoming es (push_incoming e b)
    ∙ ap (λ (u : List AgentMailboxEdge). record b { incoming = u })
        (append_assoc b.incoming (e ∷ []) es)

push_all_outgoing :
    (es : List AgentMailboxEdge) (b : AgentEdgeBundle)
    → push_all push_outgoing es b ≡ record b { outgoing = b.outgoing ++ es }
push_all_outgoing [] b = simp (append-nil b.outgoing)
push_all_outgoing (e ∷ es) b =
    push_all_outgoing es (push_outgoing e b)
    ∙ ap (λ (u : List AgentMailboxEdge). record b { outgoing = u })
        (append_assoc b.outgoing (e ∷ []) es)

-- Of the edges at one end in a set of ids, those at one id.
filter_in :
    (key : Key) (chunk : List String) (id : String) (es : List AgentMailboxEdge)
    → filter (at_key key id) (filter (λ (e : AgentMailboxEdge). is_in chunk (key e)) es)
      ≡ (if is_in chunk id then filter (at_key key id) es else [])
filter_in key chunk id [] = ground arith
filter_in key chunk id (e ∷ es) =
    let rest = filter_in key chunk id es in
    elim (Bool-cases (str_eq (key e) id)) [
      | inl f ↦
          let same : is_in chunk (key e) ≡ is_in chunk id =
            ap (is_in chunk) ((eq_iff (key e) id).0 f) in
          elim (Bool-cases (is_in chunk id)) [
            | inl g ↦ rw (same, g, f) (ap (λ u. e ∷ u) (rest ∙ rw g refl))
            | inr g ↦ rw (same, g) (rest ∙ rw g refl)
          ]
      | inr f ↦ elim (Bool-cases (is_in chunk (key e))) [
        | inl g ↦ rw (g, f) rest
        | inr g ↦ rw (g, f) rest
      ]
    ]

select_in :
    (key : Key) (chunk : List String) (id : String) (table : List AgentMailboxEdge)
    → filter (at_key key id) (select edge_ts (λ (e : AgentMailboxEdge). is_in chunk (key e)) table)
      ≡ (if is_in chunk id then select edge_ts (at_key key id) table else [])
unfolding order_by
select_in key chunk id table =
    filter-order_by (by_ts edge_ts)
      (λ a b c. int_leb_trans (unix_nano a.ts) (unix_nano b.ts) (unix_nano c.ts))
      (λ a b. int_leb_total (unix_nano a.ts) (unix_nano b.ts)) (at_key key id)
      (filter (λ (e : AgentMailboxEdge). is_in chunk (key e)) table)
    ∙ ap (order_by (by_ts edge_ts)) (filter_in key chunk id table)
    ∙ elim (Bool-cases (is_in chunk id)) [ inl e ↦ rw e refl | inr e ↦ rw e refl ]

-- The edges of one spawn, and bundles put behind each other.
abbrev pub bundle_of : List AgentMailboxEdge → String → AgentEdgeBundle
bundle_of table id = record {
  incoming = edges_to (λ (s : String). str_eq s id) table;
  outgoing = edges_from (λ (s : String). str_eq s id) table;
}

abbrev pub join : AgentEdgeBundle → AgentEdgeBundle → AgentEdgeBundle
join a b = record { incoming = a.incoming ++ b.incoming; outgoing = a.outgoing ++ b.outgoing }

pub join_none : (b : AgentEdgeBundle) → join b no_edges ≡ b
join_none b = simp (append-nil b.incoming, append-nil b.outgoing)

pub append_chunk-at :
    (table : List AgentMailboxEdge) (chunk : List String) (bundles : Assoc AgentEdgeBundle)
    (id : String)
    → bundle_at id (append_agent_edges_for_spawn_chunk table chunk bundles) ≡ (
        if is_in chunk id
        then join (bundle_at id bundles) (bundle_of table id)
        else bundle_at id bundles)
unfolding append_agent_edges_for_spawn_chunk
append_chunk-at table chunk bundles id =
    let ins = edges_to (is_in chunk) table in
    let outs = edges_from (is_in chunk) table in
    let first = scan_into to_id push_incoming ins bundles in
    let b = bundle_at id bundles in
    let pushed : bundle_at id (scan_into from_id push_outgoing outs first) ≡ record b {
      incoming = b.incoming ++ filter (at_key to_id id) ins;
      outgoing = b.outgoing ++ filter (at_key from_id id) outs;
    } =
      scan_into-at from_id push_outgoing outs first id
      ∙ push_all_outgoing (filter (at_key from_id id) outs) (bundle_at id first)
      ∙ ap
          (λ (u : AgentEdgeBundle).
            let w : AgentEdgeBundle = record u {
              outgoing = u.outgoing ++ filter (at_key from_id id) outs;
            } in
            w)
          (scan_into-at to_id push_incoming ins bundles id
            ∙ push_all_incoming (filter (at_key to_id id) ins) b) in
    pushed ∙ elim (Bool-cases (is_in chunk id)) [
      | inl e ↦ rw (select_in to_id chunk id table, select_in from_id chunk id table, e) refl
      | inr e ↦
          rw (select_in to_id chunk id table, select_in from_id chunk id table, e) (join_none b)
    ]

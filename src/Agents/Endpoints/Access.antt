-- ===== src/Agents/Endpoints/Access.antt =====
-- internal/agents/read.go: who may read.
use Prim.Native.Char.{code}
use text.Mathlib.TextEquality.{Char-path}
use tracelab.Agents.Endpoints.Mux.{
  Request, Reply, passed, dispatch, authorized, guarded, under_agents, agents_read_mux, is_answer,
}
use tracelab.Agents.Ingest.{AgentDb}
use tracelab.Prelude.{
  ℕ, String, ◌≡◌, ◌≢◌, sym, ap, ◌∙◌, subst, Bool, true, false, Option, none, some, str_eq, eq_iff,
  Bool-cases, inl, inr, arith, cut_prefix, text_append, ◌==◌, ==_iff,
}

-- A text that begins with a prefix is the prefix with the rest behind it.
cut_prefix-append :
    (prefix s rest : String) → cut_prefix prefix s ≡ some rest → s ≡ text_append prefix rest
cut_prefix-append String.[] s rest h = ground (arith, h)
cut_prefix-append (String.◌∷◌ p ps) String.[] rest h = ground (arith, h)
cut_prefix-append (String.◌∷◌ p ps) (String.◌∷◌ c s) rest h = elim (Bool-cases (code p == code c)) [
  | inl e ↦
      let k : cut_prefix ps s ≡ some rest = rw e at h in
      let same : p ≡ c = Char-path p c ((==_iff (code p) (code c)).0 e) in
      ap (λ u. String.◌∷◌ c u) (cut_prefix-append ps s rest k)
      ∙ ap (λ u. String.◌∷◌ u (text_append ps rest)) (sym same)
  | inr e ↦ let bad : Path (Option String) none (some rest) = rw e at h in ground (arith, bad)
]

authorized-token :
    (token : String) (header : Option String) (reply : Reply)
    → is_answer (authorized token header reply) ≡ true
    → header ≡ some token
authorized-token token none reply h = ground (arith, h)
authorized-token token (some got) reply h = elim (Bool-cases (str_eq got token)) [
  | inl e ↦ ap some ((eq_iff got token).0 e)
  | inr e ↦ let bad : Path Bool false true = rw e at h in ground (arith, bad)
]

guarded-token :
    (token : String) (r : Request) (o : Option Reply)
    → is_answer (guarded token r o) ≡ true
    → cut_prefix "Bearer " r.authorization ≡ some token
guarded-token token r none h = ground (arith, h)
guarded-token token r (some reply) h =
    authorized-token token (cut_prefix "Bearer " r.authorization) reply h

module _ (io : ℕ → Bool) (db : AgentDb) where
  under_agents-token :
      (token : String) (o : Option String) (r : Request)
      → is_answer (under_agents io db token o r) ≡ true
      → cut_prefix "Bearer " r.authorization ≡ some token
  under_agents-token token none r h = ground (arith, h)
  under_agents-token token (some rest) r h = guarded-token token r (dispatch io db r.path r) h

  -- Whatever the tables hold and the engine does, a request that is not passed on or refused as
  -- unauthorized, so that a handler answered it with rows or with an error, was a GET with the header
  -- "Bearer " and the secret behind it, and the secret was not empty.
  pub agents_read_mux-access :
      (token : String) (r : Request) (reply : Reply)
      → agents_read_mux io db token r ≡ some reply
      → is_answer reply ≡ true
      → (r.method ≡ "GET") × (r.authorization ≡ text_append "Bearer " token) × (token ≢ "")
  unfolding agents_read_mux
  agents_read_mux-access token r reply h answered = elim (Bool-cases (str_eq token "")) [
    | inl e ↦ let bad : Path (Option Reply) none (some reply) = rw e at h in ground (arith, bad)
    | inr e ↦ elim (Bool-cases (str_eq r.method "GET")) [
      | inl g ↦
          let inner = under_agents io db token (cut_prefix "/agents/" r.path) r in
          let k : Path (Option Reply) (some inner) (some reply) = simp (e, g) at h in
          let same : inner ≡ reply = ground (arith, k) in
          let served : is_answer inner ≡ true =
            subst (λ u. is_answer u ≡ true) (sym same) answered in
          (
            (eq_iff r.method "GET").0 g,
            cut_prefix-append "Bearer " r.authorization token
                (under_agents-token token (cut_prefix "/agents/" r.path) r served),
            λ z. ground (arith, e, (eq_iff token "").1 z),
          )
      | inr g ↦
          let k : Path (Option Reply) (some passed) (some reply) = simp (e, g) at h in
          let same : passed ≡ reply = ground (arith, k) in
          let bad : is_answer passed ≡ true = subst (λ u. is_answer u ≡ true) (sym same) answered in
          ground (arith, bad)
    ]
  ]

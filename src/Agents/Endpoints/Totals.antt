-- ===== src/Agents/Endpoints/Totals.antt =====
-- internal/agents/read.go: the totals of GET /agents/tokens by source.
use tracelab.Agents.Endpoints.{
  TokenSourceSum, TokenTotals, no_tokens, or_no_tokens, add_row, add_tokens, sum_tokens,
  token_totals,
}
use tracelab.Agents.Tables.{AgentTokenUsage}
use tracelab.Prelude.{
  ◌+◌, ℤ, pos, add64, subst, sym, String, ◌≡◌, refl, ap, ◌∙◌, Bool, List, [], ◌∷◌, str_eq, eq_iff,
  filter, length, lookup, lookup-put, Bool-cases, inl, inr, arith,
}

abbrev pub of_source : String → AgentTokenUsage → Bool
of_source source t = str_eq t.source source

-- A column of the rows added up in their order, with the wrap of int64.
abbrev pub sum_of : (AgentTokenUsage → ℤ) → ℤ → List AgentTokenUsage → ℤ
sum_of column s [] = s
sum_of column s (t ∷ ts) = sum_of column (add64 s (column t)) ts

-- The rows of one source, added up by themselves.
abbrev add_rows : TokenSourceSum → List AgentTokenUsage → TokenSourceSum
add_rows s [] = s
add_rows s (t ∷ ts) = add_rows (add_row t s) ts

abbrev sum_at : String → TokenTotals → TokenSourceSum
sum_at source totals = or_no_tokens (lookup source totals.by_source)

sum_tokens-at :
    (rows : List AgentTokenUsage) (totals : TokenTotals) (source : String)
    → sum_at source (sum_tokens totals rows)
      ≡ add_rows (sum_at source totals) (filter (of_source source) rows)
sum_tokens-at [] totals source = refl
sum_tokens-at (t ∷ ts) totals source =
    let next = add_tokens t totals in
    let found = lookup-put t.source source (add_row t (sum_at t.source totals)) totals.by_source in
    sum_tokens-at ts next source ∙ elim (Bool-cases (str_eq t.source source)) [
      | inl e ↦
          let same : t.source ≡ source = (eq_iff t.source source).0 e in
          let head : sum_at source next ≡ add_row t (sum_at source totals) =
            rw (found, e) (ap (λ s. add_row t (sum_at s totals)) same) in
          rw e (ap (λ s. add_rows s (filter (of_source source) ts)) head)
      | inr e ↦
          let head : sum_at source next ≡ sum_at source totals = rw (found, e) refl in
          rw e (ap (λ s. add_rows s (filter (of_source source) ts)) head)
    ]

-- A sum of tokens that is, column by column, that of some rows.
pub record IsSum (s : TokenSourceSum) (rows : List AgentTokenUsage) : Type 0 where
  pub input : s.input_tokens ≡ sum_of (λ (t : AgentTokenUsage). t.input_tokens) (pos 0) rows
  pub output : s.output_tokens ≡ sum_of (λ (t : AgentTokenUsage). t.output_tokens) (pos 0) rows
  pub read : s.cache_read ≡ sum_of (λ (t : AgentTokenUsage). t.cache_read) (pos 0) rows
  pub written : s.cache_write ≡ sum_of (λ (t : AgentTokenUsage). t.cache_write) (pos 0) rows
  pub counted : s.row_count ≡ length rows

-- What `add_rows` adds to each column.
record Added (s : TokenSourceSum) (rows : List AgentTokenUsage) : Type 0 where
  input :
      (add_rows s rows).input_tokens
      ≡ sum_of (λ (t : AgentTokenUsage). t.input_tokens) s.input_tokens rows
  output :
      (add_rows s rows).output_tokens
      ≡ sum_of (λ (t : AgentTokenUsage). t.output_tokens) s.output_tokens rows
  read :
      (add_rows s rows).cache_read
      ≡ sum_of (λ (t : AgentTokenUsage). t.cache_read) s.cache_read rows
  written :
      (add_rows s rows).cache_write
      ≡ sum_of (λ (t : AgentTokenUsage). t.cache_write) s.cache_write rows
  counted : (add_rows s rows).row_count ≡ s.row_count + length rows

add_rows-Added : (rows : List AgentTokenUsage) (s : TokenSourceSum) → Added s rows
add_rows-Added [] s = record {
  input = refl;
  output = refl;
  read = refl;
  written = refl;
  counted = omega arith;
}
add_rows-Added (t ∷ ts) s =
    let rest = add_rows-Added ts (add_row t s) in
    record {
      input = rest.input;
      output = rest.output;
      read = rest.read;
      written = rest.written;
      counted = omega (arith, rest.counted);
    }

-- The four totals are the sums of their columns over all the rows.
abbrev pub AreTotals : TokenTotals → List AgentTokenUsage → Type 0
AreTotals totals rows =
    (totals.input_tokens ≡ sum_of (λ (t : AgentTokenUsage). t.input_tokens) (pos 0) rows)
    × (totals.output_tokens ≡ sum_of (λ (t : AgentTokenUsage). t.output_tokens) (pos 0) rows)
    × (totals.cache_read ≡ sum_of (λ (t : AgentTokenUsage). t.cache_read) (pos 0) rows)
    × (totals.cache_write ≡ sum_of (λ (t : AgentTokenUsage). t.cache_write) (pos 0) rows)

abbrev AddsUp : TokenTotals → List AgentTokenUsage → Type 0
AddsUp totals rows =
    let all = sum_tokens totals rows in
    (all.input_tokens ≡ sum_of (λ (t : AgentTokenUsage). t.input_tokens) totals.input_tokens rows)
    × (all.output_tokens
        ≡ sum_of (λ (t : AgentTokenUsage). t.output_tokens) totals.output_tokens rows)
    × (all.cache_read ≡ sum_of (λ (t : AgentTokenUsage). t.cache_read) totals.cache_read rows)
    × (all.cache_write ≡ sum_of (λ (t : AgentTokenUsage). t.cache_write) totals.cache_write rows)

sum_tokens-AddsUp : (rows : List AgentTokenUsage) (totals : TokenTotals) → AddsUp totals rows
sum_tokens-AddsUp [] totals = (refl, refl, refl, refl)
sum_tokens-AddsUp (t ∷ ts) totals = sum_tokens-AddsUp ts (add_tokens t totals)

-- Each total of GET /agents/tokens is the sum of its own column over all rows, and the entry of a source has
-- in each column the sum over the rows of that source alone, and their number; a sum is taken in the order
-- of the rows, with the wrap of int64. A source with no row has no tokens.
pub token_totals-by_source :
    (rows : List AgentTokenUsage) (source : String)
    → AreTotals (token_totals rows) rows
      × IsSum
          (or_no_tokens (lookup source (token_totals rows).by_source))
          (filter (of_source source) rows)
unfolding token_totals lookup
token_totals-by_source rows source =
    let at = sum_tokens-at rows (token_totals []) source in
    let chosen = filter (of_source source) rows in
    let added = add_rows-Added chosen no_tokens in
    (
      sum_tokens-AddsUp rows (token_totals []),
      subst (λ s. IsSum s chosen) (sym at)
          (record {
            input = added.input;
            output = added.output;
            read = added.read;
            written = added.written;
            counted = added.counted ∙ omega arith;
          }),
    )

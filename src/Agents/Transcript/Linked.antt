-- ===== src/Agents/Transcript/Linked.antt =====
-- internal/agents/transcript.go: the order of the events of a line, against the foreign keys.
pub mod Owned
pub mod Records
pub mod Persisted
pub mod Stored
use tracelab.Agents.Ingest.{AgentDb}
use tracelab.Agents.Payload.{one_of, valid_sources, valid_verdicts, valid_edge_types}
use tracelab.Agents.Tables.{
  AgentSpawn, AgentTokenUsage, AgentVerdict, AgentMailboxEdge, SpawnRow, counted, has_spawn,
}
use tracelab.Agents.Transcript.{
  Decoder, TranscriptRecord, TranscriptEvent, spawned, used, judged, linked, pad_to_26, base,
  base_from, project_from_cwd,
}
use tracelab.Agents.Transcript.Persist.{World, persist_one, persist_events, process_line}
use tracelab.Prelude.{
  ℕ, suc, ◌+◌, ◌-◌, ◌≤◌, String, ◌≡◌, refl, sym, ap, ◌∙◌, Bool, true, false, not, ◌&&◌, ◌||◌, List,
  [], ◌∷◌, ◌++◌, ℤ, str_eq, if◌then◌else◌, any, leb, Bool-cases, inl, inr, arith, text_length,
  text_take, text_append, repeat_text, text_length-take, text_length-append, text_length-repeat,
  nonempty_of_length, str_eq_refl,
}

-- An id is exactly 26 characters long, whatever it is made of.
pub pad_to_26-length : (s : String) → text_length (pad_to_26 s) ≡ 26
unfolding pad_to_26
pad_to_26-length s = elim (Bool-cases (leb 26 (text_length s))) [
  | inl e ↦ rw e (text_length-take 26 s (ground (arith, e)))
  | inr e ↦ rw e (
      text_length-append s (repeat_text (26 - text_length s) "a")
      ∙ rw (text_length-repeat (26 - text_length s)) (ground (arith, e)))
]

pub pad_to_26_nonempty : (s : String) → str_eq (pad_to_26 s) "" ≡ false
pad_to_26_nonempty s = nonempty_of_length 25 (pad_to_26 s) (pad_to_26-length s)

pub project_nonempty : (cwd : String) → str_eq (project_from_cwd cwd) "" ≡ false
project_nonempty cwd = elim (Bool-cases (str_eq cwd "")) [
  | inl e ↦ rw e refl
  | inr e ↦ elim (Bool-cases (str_eq (base_from "" "" cwd) "")) [
    | inl f ↦ rw (e, f) refl
    | inr f ↦ rw (e, f) f
  ]
]

-- The ids of the spawns that an event brings.
abbrev pub brings : TranscriptEvent → List String → List String
brings (spawned s) known = s.id ∷ known
brings (used t) known = known
brings (judged v) known = known
brings (linked e) known = known

abbrev pub knows : List String → String → Bool
knows known id = any (λ (k : String). str_eq k id) known

-- What the store asks of an event, when the spawns `known` are in the table.
pub record FitsSpawn (known : List String) (s : AgentSpawn) : Type 0 where
  pub id : str_eq s.id "" ≡ false
  pub skill : str_eq s.skill "" ≡ false
  pub project : str_eq s.project "" ≡ false
  pub session : str_eq s.session_ref "" ≡ true
  pub parent : (str_eq s.parent_id "" || knows known s.parent_id) ≡ true

pub record FitsTokens (known : List String) (t : AgentTokenUsage) : Type 0 where
  pub id : str_eq t.spawn_id "" ≡ false
  pub source : str_eq t.source "" ≡ false
  pub spawn : knows known t.spawn_id ≡ true
  pub allowed : one_of valid_sources t.source ≡ true

pub record FitsVerdict (known : List String) (v : AgentVerdict) : Type 0 where
  pub id : str_eq v.spawn_id "" ≡ false
  pub verdict : str_eq v.verdict "" ≡ false
  pub spawn : knows known v.spawn_id ≡ true
  pub allowed : one_of valid_verdicts v.verdict ≡ true

pub record FitsEdge (known : List String) (e : AgentMailboxEdge) : Type 0 where
  pub from_id : str_eq e.from_spawn_id "" ≡ false
  pub to_id : str_eq e.to_spawn_id "" ≡ false
  pub kind : str_eq e.edge_type "" ≡ false
  pub from : knows known e.from_spawn_id ≡ true
  pub to : knows known e.to_spawn_id ≡ true
  pub allowed : one_of valid_edge_types e.edge_type ≡ true

abbrev pub Fits : List String → TranscriptEvent → Type 0
Fits known (spawned s) = FitsSpawn known s
Fits known (used t) = FitsTokens known t
Fits known (judged v) = FitsVerdict known v
Fits known (linked e) = FitsEdge known e

-- Every event finds the spawns that it refers to among those before it.
abbrev pub IsLinked : List String → List TranscriptEvent → Type 0
IsLinked known [] = Unit
IsLinked known (e ∷ es) = Fits known e × IsLinked (brings e known) es

-- More known spawns do no harm.
abbrev pub Within : List String → List String → Type 0
Within known more = (id : String) → knows known id ≡ true → knows more id ≡ true

Within-brings :
    (e : TranscriptEvent) (known more : List String)
    → Within known more
    → Within (brings e known) (brings e more)
Within-brings (spawned s) known more w id h = elim (Bool-cases (str_eq s.id id)) [
  | inl e ↦ rw e refl
  | inr e ↦ let k : knows known id ≡ true = rw e at h in rw e (w id k)
]
Within-brings (used t) known more w id h = w id h
Within-brings (judged v) known more w id h = w id h
Within-brings (linked e) known more w id h = w id h

Fits-Within :
    (e : TranscriptEvent) (known more : List String)
    → Within known more
    → Fits known e
    → Fits more e
Fits-Within (spawned s) known more w f = record {
  id = f.id;
  skill = f.skill;
  project = f.project;
  session = f.session;
  parent = elim (Bool-cases (str_eq s.parent_id "")) [
    | inl e ↦ rw e refl
    | inr e ↦ let k : knows known s.parent_id ≡ true = rw e at f.parent in rw e (w s.parent_id k)
  ];
}
Fits-Within (used t) known more w f = record {
  id = f.id;
  source = f.source;
  spawn = w t.spawn_id f.spawn;
  allowed = f.allowed;
}
Fits-Within (judged v) known more w f = record {
  id = f.id;
  verdict = f.verdict;
  spawn = w v.spawn_id f.spawn;
  allowed = f.allowed;
}
Fits-Within (linked e) known more w f = record {
  from_id = f.from_id;
  to_id = f.to_id;
  kind = f.kind;
  from = w e.from_spawn_id f.from;
  to = w e.to_spawn_id f.to;
  allowed = f.allowed;
}

pub IsLinked-Within :
    (es : List TranscriptEvent) (known more : List String)
    → Within known more
    → IsLinked known es
    → IsLinked more es
IsLinked-Within [] known more w l = tt
IsLinked-Within (e ∷ es) known more w l = (
  Fits-Within e known more w l.0,
  IsLinked-Within es (brings e known) (brings e more) (Within-brings e known more w) l.1,
)

pub Within-brought : (e : TranscriptEvent) (known : List String) → Within known (brings e known)
Within-brought (spawned s) known id h = elim (Bool-cases (str_eq s.id id)) [
  | inl e ↦ rw e refl
  | inr e ↦ rw e h
]
Within-brought (used t) known id h = h
Within-brought (judged v) known id h = h
Within-brought (linked e) known id h = h

-- Two runs of events that need no more than `known`.
pub IsLinked-append :
    (xs ys : List TranscriptEvent) (known : List String)
    → IsLinked known xs
    → IsLinked known ys
    → IsLinked known (xs ++ ys)
IsLinked-append [] ys known l m = m
IsLinked-append (x ∷ xs) ys known l m = (
  l.0,
  IsLinked-append xs ys (brings x known) l.1
      (IsLinked-Within ys known (brings x known) (Within-brought x known) m),
)

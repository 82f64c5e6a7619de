-- ===== src/Adb/Logcat/Parse/Print.antt =====
-- internal/adb/adb.go: a record in the `threadtime` format, and what `parseLogcatLine` reads of it.

use tracelab.Adb.Logcat.Parse.{
  trim_cr, skip_spaces, byte_at, has_layout, cut_space, number, cut_colon, with_tag, with_level,
  with_tid, with_pid, with_stamp, parse_logcat_line,
}
use tracelab.Prelude.{
  ℕ, zero, suc, ◌-◌, ◌<◌, ◌≡◌, ◌≢◌, refl, sym, ap, ◌∙◌, Bool, true, false, Option, some, [], ◌∷◌,
  ◌++◌, ℤ, Time, Bytes, ltb, ◌==◌, length, length-append, take, drop, any, is_nil, atoi, Bool-cases,
  inl, inr, arith,
}

abbrev is_blank : ℕ → Bool
is_blank c = c == 32

abbrev is_colon : ℕ → Bool
is_colon c = c == b':'

abbrev pub spaces : ℕ → Bytes → Bytes
spaces zero s = s
spaces (suc n) s = 32 ∷ spaces n s

-- The columns of a line, with any number of spaces, one at least, between them.
pub record Columns : Type 0 where
  pub stamp : Bytes
  pub pid : Bytes
  pub tid : Bytes
  pub level : ℕ
  pub tag : Bytes
  pub message : Bytes

abbrev pub behind_stamp : ℕ → ℕ → ℕ → Columns → Bytes
behind_stamp i j k c = spaces (suc i) (
    c.pid
    ++ spaces (suc j) (c.tid ++ spaces (suc k) (c.level ∷ 32 ∷ (c.tag ++ b':' ∷ 32 ∷ c.message))))

abbrev pub print : ℕ → ℕ → ℕ → Columns → Bytes
print i j k c = c.stamp ++ behind_stamp i j k c

-- A text that does not end in a carriage return, and is not empty.
record IsKept (s : Bytes) : Type 0 where
  there : is_nil s ≡ false
  kept : trim_cr s ≡ s

IsKept-cons : (c : ℕ) (s : Bytes) → IsKept s → IsKept (c ∷ s)
IsKept-cons c s h = record { there = refl; kept = rw (h.kept, h.there) refl }

IsKept-append : (xs s : Bytes) → IsKept s → IsKept (xs ++ s)
IsKept-append [] s h = h
IsKept-append (x ∷ xs) s h = IsKept-cons x (xs ++ s) (IsKept-append xs s h)

IsKept-spaces : (n : ℕ) (s : Bytes) → IsKept s → IsKept (spaces n s)
IsKept-spaces zero s h = h
IsKept-spaces (suc n) s h = IsKept-cons 32 (spaces n s) (IsKept-spaces n s h)

IsKept-message : (s : Bytes) → trim_cr s ≡ s → IsKept (32 ∷ s)
IsKept-message [] h = record { there = refl; kept = refl }
IsKept-message (c ∷ cs) h = record { there = refl; kept = rw h refl }

IsKept-print : (i j k : ℕ) (c : Columns) → trim_cr c.message ≡ c.message → IsKept (print i j k c)
IsKept-print i j k c h =
    let tail = IsKept-cons b':' (32 ∷ c.message) (IsKept-message c.message h) in
    let tagged = IsKept-cons c.level _ (IsKept-cons 32 _ (IsKept-append c.tag _ tail)) in
    let threads = IsKept-append c.tid _ (IsKept-spaces (suc k) _ tagged) in
    IsKept-append c.stamp _
      (IsKept-spaces (suc i) _ (IsKept-append c.pid _ (IsKept-spaces (suc j) _ threads)))

skip_spaces_lem : (n : ℕ) (s : Bytes) → skip_spaces (spaces n s) ≡ skip_spaces s
skip_spaces_lem zero s = refl
skip_spaces_lem (suc n) s = skip_spaces_lem n s

skip_spaces_word : (w s : Bytes) → w ≢ [] → any is_blank w ≡ false → skip_spaces (w ++ s) ≡ w ++ s
skip_spaces_word [] s h b = absurd (h refl)
skip_spaces_word (c ∷ cs) s h b = let e : (c == 32) ≡ false = ground (arith, b) in rw e refl

cut_space_word : (w s : Bytes) → any is_blank w ≡ false → cut_space (w ++ 32 ∷ s) ≡ some (w, 32 ∷ s)
cut_space_word [] s b = refl
cut_space_word (c ∷ cs) s b =
    let e : (c == 32) ≡ false = ground (arith, b) in
    rw (e, cut_space_word cs s (ground (arith, b))) refl

number_word :
    (w : Bytes) (n : ℤ) (i : ℕ) (s : Bytes)
    → w ≢ []
    → any is_blank w ≡ false
    → atoi w ≡ some n
    → number (w ++ spaces (suc i) s) ≡ some (n, skip_spaces s)
number_word [] n i s h b a = absurd (h refl)
number_word (c ∷ cs) n i s h b a =
    rw (cut_space_word (c ∷ cs) (spaces i s) b, a) (ap (λ u. some (n, u)) (skip_spaces_lem i s))

cut_colon_tag :
    (tag message : Bytes)
    → any is_colon tag ≡ false
    → cut_colon (tag ++ b':' ∷ 32 ∷ message) ≡ some (tag, message)
cut_colon_tag [] message b = refl
cut_colon_tag (c ∷ []) message b = let e : (c == b':') ≡ false = ground (arith, b) in rw e refl
cut_colon_tag (c ∷ d ∷ cs) message b =
    let e : (c == b':') ≡ false = ground (arith, b) in
    rw (e, cut_colon_tag (d ∷ cs) message (ground (arith, b))) refl

byte_at-append : (n : ℕ) (xs ys : Bytes) → n < length xs → byte_at n (xs ++ ys) ≡ byte_at n xs
byte_at-append n [] ys h = ground (arith, h)
byte_at-append n (x ∷ xs) ys h = elim (Bool-cases (n == 0)) [
  | inl e ↦ rw e refl
  | inr e ↦ rw e (byte_at-append (n - 1) xs ys (ground (arith, h, e)))
]

take_whole : (n : ℕ) (xs ys : Bytes) → length xs ≡ n → take n (xs ++ ys) ≡ xs
take_whole n [] ys h = ap (λ k. take k ys) (sym h)
take_whole zero (x ∷ xs) ys h = ground (arith, h)
take_whole (suc n) (x ∷ xs) ys h = ap (λ u. x ∷ u) (take_whole n xs ys (ground (arith, h)))

drop_whole : (n : ℕ) (xs ys : Bytes) → length xs ≡ n → drop n (xs ++ ys) ≡ ys
drop_whole n [] ys h = ap (λ k. drop k ys) (sym h)
drop_whole zero (x ∷ xs) ys h = ground (arith, h)
drop_whole (suc n) (x ∷ xs) ys h = drop_whole n xs ys (ground (arith, h))

-- What the format asks of the columns: a stamp of 18 bytes that the clock's library reads, numbers
-- without blanks, a level that is no blank, a tag without a colon, and no carriage return at the end.
pub record IsColumns (stamp : Bytes → Option Time) (c : Columns) (ts : Time) (pid tid : ℤ)
    : Type 0 where
  pub width : length c.stamp ≡ 18
  pub layout : has_layout c.stamp ≡ true
  pub reads : stamp c.stamp ≡ some ts
  pub pid_there : c.pid ≢ []
  pub pid_word : any is_blank c.pid ≡ false
  pub pid_reads : atoi c.pid ≡ some pid
  pub tid_there : c.tid ≢ []
  pub tid_word : any is_blank c.tid ≡ false
  pub tid_reads : atoi c.tid ≡ some tid
  pub level_there : (c.level == 32) ≡ false
  pub tag_plain : any is_colon c.tag ≡ false
  pub ending : trim_cr c.message ≡ c.message

module _ (stamp : Bytes → Option Time) (trim_space : Bytes → Bytes) where
  with_level_tag :
      (ts : Time) (pid tid : ℤ) (level : ℕ) (tag message : Bytes)
      → any is_colon tag ≡ false
      → with_level stamp trim_space ts pid tid (level ∷ 32 ∷ (tag ++ b':' ∷ 32 ∷ message))
        ≡ some (record {
          timestamp = ts;
          pid = pid;
          tid = tid;
          level = level;
          tag = trim_space tag;
          message = message;
        })
  with_level_tag ts pid tid level [] message b = refl
  with_level_tag ts pid tid level (c ∷ cs) message b =
      ap (λ u. with_tag stamp trim_space ts pid tid level (c ∷ cs ++ b':' ∷ 32 ∷ message) u)
        (cut_colon_tag (c ∷ cs) message b)

  read_head :
      (w r : Bytes)
      → length w ≡ 18
      → has_layout w ≡ true
      → IsKept (w ++ r)
      → is_nil r ≡ false
      → parse_logcat_line stamp trim_space (w ++ r) ≡ with_stamp stamp trim_space r (stamp w)
  unfolding parse_logcat_line
  read_head w [] width layout h there = ground (arith, there)
  read_head w (c ∷ cs) width layout h there =
      let r = c ∷ cs in
      let long : ltb (length (w ++ r)) 19 ≡ false = ground (arith, length-append w r, width) in
      let at : (n : ℕ) → n < 18 → byte_at n (w ++ r) ≡ byte_at n w =
        λ n b. byte_at-append n w r (omega (arith, b, width)) in
      let same : has_layout (w ++ r) ≡ true =
        rw (at 2 (omega arith), at 5 (omega arith), at 8 (omega arith), at 11 (omega arith))
          layout in
      rw (h.kept, long, same, take_whole 18 w r width, drop_whole 18 w r width) refl

  read_columns :
      (i j k : ℕ) (c : Columns) (ts : Time) (pid tid : ℤ)
      → IsColumns stamp c ts pid tid
      → with_stamp stamp trim_space (behind_stamp i j k c) (some ts)
        ≡ some (record {
          timestamp = ts;
          pid = pid;
          tid = tid;
          level = c.level;
          tag = trim_space c.tag;
          message = c.message;
        })
  read_columns i j k c ts pid tid h =
      let level = c.level ∷ 32 ∷ (c.tag ++ b':' ∷ 32 ∷ c.message) in
      let threads = c.tid ++ spaces (suc k) level in
      let numbers = c.pid ++ spaces (suc j) threads in
      let first : skip_spaces (spaces (suc i) numbers) ≡ numbers =
        skip_spaces_lem (suc i) numbers ∙ skip_spaces_word c.pid _ h.pid_there h.pid_word in
      let second : skip_spaces threads ≡ threads =
        skip_spaces_word c.tid _ h.tid_there h.tid_word in
      let third : skip_spaces level ≡ level = rw h.level_there refl in
      ap (with_pid stamp trim_space ts) (
        ap number first
        ∙ number_word c.pid pid j threads h.pid_there h.pid_word h.pid_reads
        ∙ ap (λ u. some (pid, u)) second)
      ∙ ap (with_tid stamp trim_space ts pid) (
          number_word c.tid tid k level h.tid_there h.tid_word h.tid_reads
          ∙ ap (λ u. some (tid, u)) third)
      ∙ with_level_tag ts pid tid c.level c.tag c.message h.tag_plain

  -- A line in the `threadtime` format is read as the record of its columns, however many spaces stand
  -- between them, with the tag trimmed and the message as it is, colons and blanks included.
  pub parse_logcat_line-print :
      (i j k : ℕ) (c : Columns) (ts : Time) (pid tid : ℤ)
      → IsColumns stamp c ts pid tid
      → parse_logcat_line stamp trim_space (print i j k c)
        ≡ some (record {
          timestamp = ts;
          pid = pid;
          tid = tid;
          level = c.level;
          tag = trim_space c.tag;
          message = c.message;
        })
  parse_logcat_line-print i j k c ts pid tid h =
      read_head c.stamp (behind_stamp i j k c) h.width h.layout (IsKept-print i j k c h.ending) refl
      ∙ ap (with_stamp stamp trim_space (behind_stamp i j k c)) h.reads
      ∙ read_columns i j k c ts pid tid h

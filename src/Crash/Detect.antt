-- ===== src/Crash/Detect.antt =====
-- internal/crash/detect.go: `Detect` and the normal form of a stack.
use tracelab.Crash.Patterns.{
  re_java_frame, re_kotlin_frame, re_jvm_header, re_jvm_line_num, re_kotlin_lambda_no, re_go_header,
  re_go_frame_tab, re_go_line_num, re_go_goro_num, re_go_hex_off, re_go_hex_addr, re_go_trim_args,
  re_rust_header, re_rust_frame, re_rust_at_line, re_rust_backtrace, re_rust_line_no,
  re_rust_default_note, re_py_header, re_py_frame, re_py_line_no,
}
use tracelab.Crash.Regex.{match_string, match_line, count_lines, replace_all, constant}
use tracelab.Prelude.{
  ℕ, ◌+◌, Bool, true, false, ◌&&◌, ◌||◌, Option, none, some, List, [], ◌∷◌, ◌++◌, Bytes, codes, leb,
  ◌==◌, if◌then◌else◌, length, is_nil, trim,
}

-- `strings.Split(s, "\n")`
abbrev onto_first : ℕ → List Bytes → List Bytes
onto_first c [] = (c ∷ []) ∷ []
onto_first c (l ∷ ls) = (c ∷ l) ∷ ls

unfoldable pub split_lines : Bytes → List Bytes
split_lines [] = [] ∷ []
split_lines (c ∷ cs) = let rest = split_lines cs in if c == 10 then [] ∷ rest else onto_first c rest

pub data Language : Type 0 where
  java kotlin go rust python : Language

-- `Result`, with its `Matched` as the option.
pub record Detected : Type 0 where
  pub language : Language
  pub normalized_stack : Bytes

-- Java and Kotlin.
abbrev pub is_kotlin : Bytes → Bool
is_kotlin msg = match_line re_kotlin_frame true msg

abbrev pub is_java : Bytes → Bool
is_java msg =
    match_line re_java_frame true msg
    && (leb 2 (count_lines (length msg) re_java_frame true msg)
        || match_line re_jvm_header true msg)

-- `.$1:LINE`: what stands before the colon is kept.
abbrev pub before_colon : Bytes → Bytes
before_colon [] = []
before_colon (c ∷ cs) = let rest = before_colon cs in if c == b':' then [] else c ∷ rest

-- `$N$1`: the group is the dollar at the end, if there is one.
abbrev pub last_dollar : Bytes → Bytes
last_dollar [] = []
last_dollar (c ∷ []) = if c == b'$' then c ∷ [] else []
last_dollar (c ∷ d ∷ cs) = last_dollar (d ∷ cs)

abbrev pub normalize_jvm : Bytes → Bytes
normalize_jvm msg = trim (
    replace_all re_kotlin_lambda_no (λ m. codes "$N" ++ last_dollar m)
      (replace_all re_jvm_line_num (λ m. before_colon m ++ codes ":LINE") msg))

-- Go.
abbrev pub is_go : Bytes → Bool
is_go msg = match_line re_go_header true msg && match_line re_go_frame_tab true msg

abbrev pub normalize_go : Bytes → Bytes
normalize_go msg = trim (
    replace_all re_go_hex_addr (constant "0xADDR") (
      replace_all re_go_hex_off (constant "+0xOFF") (
        replace_all re_go_trim_args (constant "(ARGS)") (
          replace_all re_go_goro_num (constant "goroutine N")
            (replace_all re_go_line_num (constant ".go:LINE") msg)))))

-- Rust. A numbered line makes a pair with the next line that is not blank, if that is an at-line.
abbrev pub at_line_next : List Bytes → Bool
at_line_next [] = false
at_line_next (l ∷ ls) =
    let rest = at_line_next ls in
    if is_nil (trim l) then rest else match_line re_rust_at_line true l

unfoldable pub count_rust_frame_pairs : List Bytes → ℕ
count_rust_frame_pairs [] = 0
count_rust_frame_pairs (l ∷ ls) =
    (if match_line re_rust_frame true l && at_line_next ls then 1 else 0)
    + count_rust_frame_pairs ls

abbrev pub is_rust : Bytes → Bool
is_rust msg =
    let has_header = match_string re_rust_header msg in
    (has_header && match_line re_rust_at_line true msg)
    || (match_line re_rust_backtrace true msg && match_line re_rust_frame true msg)
    || (has_header && match_line re_rust_default_note true msg)
    || leb 2 (count_rust_frame_pairs (split_lines msg))

abbrev pub normalize_rust : Bytes → Bytes
normalize_rust msg = trim (replace_all re_rust_line_no (constant ".rs:LINE") msg)

-- Python.
abbrev pub is_python : Bytes → Bool
is_python msg = match_string re_py_header msg && match_line re_py_frame true msg

abbrev pub normalize_python : Bytes → Bytes
normalize_python msg = trim (replace_all re_py_line_no (constant ", line LINE,") msg)

abbrev found : Language → Bytes → Option Detected
found language stack = some (record { language = language; normalized_stack = stack })

-- `Detect`, which reads only the message.
unfoldable pub detect : Bytes → Option Detected
unfolding count_rust_frame_pairs split_lines
detect msg =
    if is_nil msg
    then none
    else if is_python msg
    then found python (normalize_python msg)
    else if is_rust msg
    then found rust (normalize_rust msg)
    else if is_go msg
    then found go (normalize_go msg)
    else if is_kotlin msg
    then found kotlin (normalize_jvm msg)
    else if is_java msg
    then found java (normalize_jvm msg)
    else none

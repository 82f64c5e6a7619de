-- ===== src/Crash/Patterns.antt =====
-- internal/crash/detect.go: the patterns. `match_line` and `count_lines` stand for their `(?m)^`.
use tracelab.Crash.Regex.{
  Re, one, seq, alt, many, word_end, line_end, is_word, is_blank, char, not_char, text, some_of,
  optional, digits, blanks, non_blank, any_chars,
}
use tracelab.Prelude.{ℕ, Bool, ◌&&◌, ◌||◌, ◌==◌, String, leb}

infixr 60 ◌⊙◌
abbrev ◌⊙◌ : Re → Re → Re
a ⊙ b = seq a b

-- `[\w$.<>]`
abbrev is_frame_char : ℕ → Bool
is_frame_char c = is_word c || c == b'$' || c == b'.' || c == b'<' || c == b'>'

abbrev blank : Re
blank = one is_blank

-- `reJavaFrame` and `reKotlinFrame`, by the suffix of the file.
abbrev jvm_frame : String → Re
jvm_frame suffix =
    blanks
    ⊙ text "at"
    ⊙ some_of blank
    ⊙ some_of (one is_frame_char)
    ⊙ text "("
    ⊙ many (not_char b')')
    ⊙ text suffix
    ⊙ digits
    ⊙ text ")"

abbrev pub re_java_frame : Re
re_java_frame = jvm_frame ".java:"

abbrev pub re_kotlin_frame : Re
re_kotlin_frame = jvm_frame ".kt:"

abbrev pub re_jvm_header : Re
re_jvm_header =
    alt (text "Exception in thread")
      (alt (text "Caused by:") (alt (any_chars ⊙ text "Exception:") (any_chars ⊙ text "Error:")))

abbrev pub re_jvm_line_num : Re
re_jvm_line_num = text "." ⊙ alt (text "java") (alt (text "kt") (text "kts")) ⊙ text ":" ⊙ digits

abbrev pub re_kotlin_lambda_no : Re
re_kotlin_lambda_no = text "$" ⊙ digits ⊙ alt (text "$") word_end

-- Go.
abbrev pub re_go_header : Re
re_go_header = alt (text "panic:") (text "goroutine " ⊙ digits ⊙ text " [")

abbrev is_hex_lower : ℕ → Bool
is_hex_lower c = (leb b'0' c && leb c b'9') || (leb b'a' c && leb c b'f')

abbrev is_hex : ℕ → Bool
is_hex c = is_hex_lower c || (leb b'A' c && leb c b'F')

abbrev pub re_go_frame_tab : Re
re_go_frame_tab =
    char 9
    ⊙ non_blank
    ⊙ many (not_char b':')
    ⊙ text ".go:"
    ⊙ digits
    ⊙ optional (some_of blank ⊙ text "+0x" ⊙ some_of (one is_hex_lower))

abbrev pub re_go_line_num : Re
re_go_line_num = text ".go:" ⊙ digits

abbrev pub re_go_goro_num : Re
re_go_goro_num = text "goroutine " ⊙ digits

abbrev pub re_go_hex_off : Re
re_go_hex_off = text "+0x" ⊙ some_of (one is_hex)

abbrev pub re_go_hex_addr : Re
re_go_hex_addr = text "0x" ⊙ one is_hex ⊙ one is_hex ⊙ one is_hex ⊙ one is_hex ⊙ many (one is_hex)

abbrev pub re_go_trim_args : Re
re_go_trim_args =
    text "("
    ⊙ many (not_char b')')
    ⊙ text "0x"
    ⊙ some_of (one is_hex)
    ⊙ many (not_char b')')
    ⊙ text ")"

-- Rust.
abbrev quote : ℕ
quote = 39

abbrev in_quotes : Re
in_quotes = char quote ⊙ some_of (not_char quote) ⊙ char quote

abbrev pub re_rust_header : Re
re_rust_header = text "thread " ⊙ in_quotes ⊙ text " panicked at"

abbrev pub re_rust_frame : Re
re_rust_frame = blanks ⊙ digits ⊙ text ":" ⊙ some_of blank ⊙ non_blank

abbrev rust_position : Re
rust_position = text ".rs:" ⊙ digits ⊙ optional (text ":" ⊙ digits)

abbrev pub re_rust_at_line : Re
re_rust_at_line = blanks ⊙ text "at" ⊙ some_of blank ⊙ some_of non_blank ⊙ rust_position

abbrev pub re_rust_backtrace : Re
re_rust_backtrace = blanks ⊙ text "stack backtrace:" ⊙ blanks ⊙ line_end

abbrev pub re_rust_line_no : Re
re_rust_line_no = rust_position

abbrev pub re_rust_default_note : Re
re_rust_default_note =
    blanks ⊙ text "note: run with `RUST_BACKTRACE=1` environment variable to display a backtrace"

-- Python.
abbrev pub re_py_header : Re
re_py_header = text "Traceback (most recent call last):"

abbrev double_quote : ℕ
double_quote = 34

abbrev pub re_py_frame : Re
re_py_frame =
    blanks
    ⊙ text "File "
    ⊙ char double_quote
    ⊙ some_of (not_char double_quote)
    ⊙ char double_quote
    ⊙ text ", line "
    ⊙ digits
    ⊙ text ", in "
    ⊙ non_blank
    ⊙ many non_blank

abbrev pub re_py_line_no : Re
re_py_line_no = text ", line " ⊙ digits ⊙ text ","

-- `reHeaderShapes`, at the start of a line that has been trimmed.
abbrev pub re_header_shapes : Re
re_header_shapes = alt (text "Traceback (most recent call last):") (
    alt (text "Exception in thread") (
      alt (text "Caused by:") (
        alt (text "panic:") (
          alt (text "goroutine N [")
            (alt (text "thread " ⊙ in_quotes ⊙ text " panicked") (text "stack backtrace:"))))))

-- ===== src/Tests/Logcat.antt =====
-- internal/adb/adb.go: lines of logcat at concrete inputs.
use tracelab.Adb.Logcat.Parse.{parse_logcat_line}
use tracelab.Adb.Logcat.Parse.Print.{Columns, IsColumns, print, parse_logcat_line-print}
use tracelab.Prelude.{
  ◌≡◌, refl, Option, none, some, [], ◌∷◌, ◌++◌, pos, Time, unix, Bytes, codes, atoi, trim,
}

-- A stamp is read as the number of its last byte.
abbrev last_digit : Bytes → Option Time
last_digit [] = none
last_digit (c ∷ []) = some (unix (pos c))
last_digit (c ∷ d ∷ cs) = last_digit (d ∷ cs)

abbrev columns : Columns
columns = record {
  stamp = codes "06-01 12:34:56.789";
  pid = codes "1234";
  tid = codes "56";
  level = b'I';
  tag = codes "MyTag  ";
  message = codes "hello: world";
}

IsColumns-columns : IsColumns last_digit columns (unix (pos 57)) (pos 1234) (pos 56)
unfolding atoi
IsColumns-columns = record {
  width = refl;
  layout = refl;
  reads = refl;
  pid_there = λ h. cc h;
  pid_word = refl;
  pid_reads = refl;
  tid_there = λ h. cc h;
  tid_word = refl;
  tid_reads = refl;
  level_there = refl;
  tag_plain = refl;
  ending = refl;
}

parse_logcat_line-print_example :
    parse_logcat_line last_digit trim (print 1 1 0 columns)
    ≡ some (record {
      timestamp = unix (pos 57);
      pid = pos 1234;
      tid = pos 56;
      level = b'I';
      tag = trim (codes "MyTag  ");
      message = codes "hello: world";
    })
parse_logcat_line-print_example =
    parse_logcat_line-print last_digit trim 1 1 0 columns (unix (pos 57)) (pos 1234) (pos 56)
      IsColumns-columns

banner_dropped : parse_logcat_line last_digit trim (codes "--------- beginning of main") ≡ none
unfolding parse_logcat_line atoi
banner_dropped = refl

-- The message may be missing.
no_message :
    parse_logcat_line last_digit trim (codes "06-01 12:34:56.789  1 2 E tag:" ++ 13 ∷ [])
    ≡ some (record {
      timestamp = unix (pos 57);
      pid = pos 1;
      tid = pos 2;
      level = b'E';
      tag = codes "tag";
      message = [];
    })
unfolding parse_logcat_line atoi
no_message = refl

-- ===== src/Server/Job/Script.antt =====
-- Job files as scripts: what their lines mean for a map from keys to values, and for the output.
use so.Common.{◌≤◌, ◌<◌, List, [], ◌∷◌, ◌++◌, Bytes, All, length}
use so.Input.{uint_max}
use so.Input.Laws.{OneLine}
use so.Input.Numbers.{IsNumber, value_of}
use so.Server.Kvs.{max_string_size}
use so.Server.Parser.{
  cmd_write, cmd_read, cmd_delete, max_write_size, cmd_wait, cmd_backup, cmd_help,
}
use so.Server.Parser.Words.{word_of}
use so.Server.Parser.Lists.{IsItem, IsPairItem, print_pairs, print_keys}
use so.Server.Sort.{Pair}
use so.Server.Operations.{read_reply}
use so.Server.Operations.Locks.{HasBucket}
use so.Server.Operations.Writes.{last_value}
use so.Server.Operations.Replies.{read_answer}
use so.Server.Operations.Deletes.{Map, remove_keys, missing_keys, delete_answer, IsShortName}
use so.Server.Job.{sort_keys}

pub data Line : Type 0 where
  write : Pair → List Pair → Line
  read delete : Bytes → List Bytes → Line
  -- WAIT with these digits
  pause : Bytes → Line
  back_up show_help : Line
  -- `#` and a text
  comment : Bytes → Line
  blank : Line

unfoldable pub print_line : Line → Bytes → Bytes
print_line (write p ps) rest =
    word_of cmd_write ++ b'[' ∷ b'(' ∷ print_pairs (p ∷ ps) (b'\n' ∷ rest)
print_line (read k ks) rest = word_of cmd_read ++ b'[' ∷ print_keys (k ∷ ks) (b'\n' ∷ rest)
print_line (delete k ks) rest = word_of cmd_delete ++ b'[' ∷ print_keys (k ∷ ks) (b'\n' ∷ rest)
print_line (pause digits) rest = word_of cmd_wait ++ (digits ++ b'\n' ∷ rest)
print_line back_up rest = word_of cmd_backup ++ rest
print_line show_help rest = word_of cmd_help ++ rest
print_line (comment text) rest = b'#' ∷ (text ++ b'\n' ∷ rest)
print_line blank rest = b'\n' ∷ rest

abbrev pub print_script : List Line → Bytes
print_script [] = []
print_script (l ∷ ls) = print_line l (print_script ls)

-- The pairs of a line take effect one after the other, in its own order.
abbrev pub put_pairs : List Pair → Map → Map
put_pairs ps m q = last_value q ps (m q)

abbrev pub next_map : Line → Map → Map
next_map (write p ps) m = put_pairs (p ∷ ps) m
next_map (delete k ks) m = remove_keys (sort_keys (k ∷ ks)) m
next_map _ m = m

abbrev pub answer : Line → Map → Bytes
answer (read k ks) m = read_answer m (sort_keys (k ∷ ks))
answer (delete k ks) m = delete_answer (missing_keys (sort_keys (k ∷ ks)) m)
answer _ m = []

abbrev pub final_map : List Line → Map → Map
final_map [] m = m
final_map (l ∷ ls) m = final_map ls (next_map l m)

-- The bytes of the output file.
abbrev pub output_file : List Line → Map → Bytes
output_file [] m = []
output_file (l ∷ ls) m = answer l m ++ output_file ls (next_map l m)

abbrev pub IsReplyShort : Map → Bytes → Type 0
IsReplyShort m k = length (read_reply k (m k)) < max_string_size

-- A line that the server takes as it stands: items without delimiters, fewer than fit, keys with
-- buckets, and answers that fit the buffer.
abbrev pub IsGood : Map → Line → Type 0
IsGood m (write p ps) =
    All IsPairItem (p ∷ ps) × All (λ q. HasBucket q.0) (p ∷ ps) × (length (p ∷ ps) < max_write_size)
IsGood m (read k ks) =
    All IsItem (k ∷ ks)
    × All HasBucket (k ∷ ks)
    × (length (k ∷ ks) < max_write_size)
    × All (IsReplyShort m) (k ∷ ks)
IsGood m (delete k ks) =
    All IsItem (k ∷ ks)
    × All HasBucket (k ∷ ks)
    × (length (k ∷ ks) < max_write_size)
    × All IsShortName (k ∷ ks)
IsGood m (pause digits) = IsNumber digits × (length digits < 16) × (value_of digits ≤ uint_max)
IsGood m (comment text) = OneLine text
IsGood m _ = Unit

abbrev pub IsGoodScript : Map → List Line → Type 0
IsGoodScript m [] = Unit
IsGoodScript m (l ∷ ls) = IsGood m l × IsGoodScript (next_map l m) ls

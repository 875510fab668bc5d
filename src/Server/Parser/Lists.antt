-- ===== src/Server/Parser/Lists.antt =====
-- parse_write and parse_read_delete on printed lists, and on lines that they refuse.
use so.Common.{
  ℕ, zero, suc, ◌<◌, some, none, List, [], ◌∷◌, ◌++◌, Bytes, IsText, c_str-text, arith, ◌≡◌, refl,
  length, All, ok, ◌>>=◌, pos, negsuc, inl, inr,
}
use so.Input.{cleanup}
use so.Input.Laws.{IsPlain, OneLine, cleanup-line, read_string-plain}
use so.Server.Kvs.{max_string_size}
use so.Server.Parser.{
  parse_pair, write_loop, keys_loop, finish_list, parse_write, parse_read_delete,
}

-- Text that a list can carry: no delimiter, no NUL, and shorter than the buffer.
pub record IsItem (s : Bytes) : Type 0 where
  pub plain : IsPlain s
  pub text : IsText s
  pub short : length s < max_string_size

abbrev pub IsPairItem : Bytes × Bytes → Type 0
IsPairItem (k, v) = IsItem k × IsItem v

abbrev pub print_pair : Bytes × Bytes → Bytes → Bytes
print_pair (k, v) rest = k ++ b',' ∷ (v ++ b')' ∷ rest)

-- `k,v)` and then `(` and the next pair, or `]`.
abbrev pub print_pairs : List (Bytes × Bytes) → Bytes → Bytes
print_pairs [] rest = rest
print_pairs (p ∷ []) rest = print_pair p (b']' ∷ rest)
print_pairs (p ∷ q ∷ ps) rest = print_pair p (b'(' ∷ print_pairs (q ∷ ps) rest)

pub parse_pair-print_pair :
    (k v rest : Bytes)
    → IsItem k
    → IsItem v
    → parse_pair (print_pair (k, v) rest) ≡ ok (some (k, v), rest)
unfolding parse_pair
parse_pair-print_pair k v rest hk hv = rw (
  read_string-plain max_string_size k (v ++ b')' ∷ rest) b',' (pos 0) hk.plain hk.short
      (inl (refl, refl)),
  ◌>>=◌,
  read_string-plain max_string_size v rest b')' (pos 1) hv.plain hv.short (inr (inl (refl, refl))),
)

write_loop-print_pairs :
    (room : ℕ) (p : Bytes × Bytes) (ps : List (Bytes × Bytes)) (rest : Bytes)
    → All IsPairItem (p ∷ ps)
    → length ps < room
    → write_loop room (print_pairs (p ∷ ps) rest) ≡ ok (some (p ∷ ps), rest)
unfolding write_loop
write_loop-print_pairs zero p ps rest h few = absurd (omega arith)
write_loop-print_pairs (suc room) (k, v) [] rest h few = rw (
  parse_pair-print_pair k v (b']' ∷ rest) h.0.0 h.0.1,
  ◌>>=◌,
  c_str-text k h.0.0.text,
  c_str-text v h.0.1.text,
)
write_loop-print_pairs (suc room) (k, v) (q ∷ ps) rest h few = rw (
  parse_pair-print_pair k v _ h.0.0 h.0.1,
  ◌>>=◌,
  c_str-text k h.0.0.text,
  c_str-text v h.0.1.text,
  write_loop-print_pairs room q ps rest h.1 (omega arith),
)

finish_list-line :
    {A : Type 0} (max : ℕ) (xs : List A) (rest : Bytes)
    → length xs < max
    → finish_list max (some xs, b'\n' ∷ rest) ≡ (xs, rest)
unfolding finish_list
finish_list-line max xs rest few = ground arith

-- A printed list of pairs, fewer than `max_pairs`, is read back, and its line is consumed.
pub parse_write-print_pairs :
    (max_pairs : ℕ) (p : Bytes × Bytes) (ps : List (Bytes × Bytes)) (rest : Bytes)
    → All IsPairItem (p ∷ ps)
    → length (p ∷ ps) < max_pairs
    → parse_write max_pairs (b'[' ∷ b'(' ∷ print_pairs (p ∷ ps) (b'\n' ∷ rest)) ≡ ok (p ∷ ps, rest)
unfolding parse_write
parse_write-print_pairs max_pairs p ps rest h few = rw (
  write_loop-print_pairs max_pairs p ps (b'\n' ∷ rest) h (omega arith),
  ◌>>=◌,
  finish_list-line max_pairs (p ∷ ps) rest few,
)

-- Keys separated by commas, and the closing bracket.
abbrev pub print_keys : List Bytes → Bytes → Bytes
print_keys [] rest = rest
print_keys (k ∷ []) rest = k ++ b']' ∷ rest
print_keys (k ∷ q ∷ ks) rest = k ++ b',' ∷ print_keys (q ∷ ks) rest

keys_loop-print_keys :
    (room : ℕ) (k : Bytes) (ks : List Bytes) (rest : Bytes)
    → All IsItem (k ∷ ks)
    → length ks < room
    → keys_loop room (print_keys (k ∷ ks) rest) ≡ ok (some (k ∷ ks), rest)
unfolding keys_loop
keys_loop-print_keys zero k ks rest h few = absurd (omega arith)
keys_loop-print_keys (suc room) k [] rest h few = rw (
  read_string-plain max_string_size k rest b']' (pos 2) h.0.plain h.0.short
      (inr (inr (inl (refl, refl)))),
  ◌>>=◌,
  c_str-text k h.0.text,
)
keys_loop-print_keys (suc room) k (q ∷ ks) rest h few = rw (
  read_string-plain max_string_size k _ b',' (pos 0) h.0.plain h.0.short (inl (refl, refl)),
  ◌>>=◌,
  c_str-text k h.0.text,
  keys_loop-print_keys room q ks rest h.1 (omega arith),
)

-- A printed list of keys, fewer than `max_keys`, is read back, and its line is consumed.
pub parse_read_delete-print_keys :
    (max_keys : ℕ) (k : Bytes) (ks : List Bytes) (rest : Bytes)
    → All IsItem (k ∷ ks)
    → length (k ∷ ks) < max_keys
    → parse_read_delete max_keys (b'[' ∷ print_keys (k ∷ ks) (b'\n' ∷ rest)) ≡ ok (k ∷ ks, rest)
unfolding parse_read_delete
parse_read_delete-print_keys max_keys k ks rest h few = rw (
  keys_loop-print_keys max_keys k ks (b'\n' ∷ rest) h (omega arith),
  ◌>>=◌,
  finish_list-line max_keys (k ∷ ks) rest few,
)

-- As many pairs as fit are refused: the list is thrown away, with the rest of its line.
pub parse_write-full :
    (p : Bytes × Bytes) (ps : List (Bytes × Bytes)) (line rest : Bytes)
    → All IsPairItem (p ∷ ps)
    → OneLine line
    → parse_write (length (p ∷ ps)) (b'[' ∷ b'(' ∷ print_pairs (p ∷ ps) (line ++ b'\n' ∷ rest))
      ≡ ok ([], rest)
unfolding parse_write finish_list
parse_write-full p ps line rest h one =
    rw (write_loop-print_pairs (length (p ∷ ps)) p ps (line ++ b'\n' ∷ rest) h (omega arith), ◌>>=◌)
      (ground (arith, cleanup-line line rest one))

parse_pair-space :
    (key rest : Bytes)
    → IsPlain key
    → length key < max_string_size
    → parse_pair (key ++ b' ' ∷ rest) ≡ ok (none, cleanup rest)
unfolding parse_pair
parse_pair-space key rest plain short = rw (
    read_string-plain max_string_size key rest b' ' (negsuc 0) plain short
      (inr (inr (inr (refl, refl)))))

-- A space in the first key: `cleanup` runs in `parse_pair` and again in `parse_write`, so that the
-- line behind the refused one is skipped too.
pub parse_write-loses_line :
    (max_pairs : ℕ) (key junk next rest : Bytes)
    → IsPlain key
    → length key < max_string_size
    → OneLine junk
    → OneLine next
    → parse_write
        (suc max_pairs)
        (b'[' ∷ b'(' ∷ (key ++ b' ' ∷ (junk ++ b'\n' ∷ (next ++ b'\n' ∷ rest))))
      ≡ ok ([], rest)
unfolding parse_write write_loop finish_list
parse_write-loses_line max_pairs key junk next rest plain short one two = rw (
  parse_pair-space key (junk ++ b'\n' ∷ (next ++ b'\n' ∷ rest)) plain short,
  ◌>>=◌,
  cleanup-line junk (next ++ b'\n' ∷ rest) one,
  cleanup-line next rest two,
)

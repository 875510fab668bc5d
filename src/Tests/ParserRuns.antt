-- ===== src/Tests/ParserRuns.antt =====
-- The server's parser on short inputs.
use so.Common.{
  ◌↔◌, none, [], ◌∷◌, ◌++◌, Bytes, codes, negsuc, ok, fault, out_of_bounds, arith, ◌≡◌, refl,
  length, take, ◌≤◌, ◌<◌,
}
use so.Input.{read_string, strtoul, uint_max}
use so.Input.Laws.{IsPlain, read_string-overrun}
use so.Input.Numbers.{value_of}
use so.Server.Parser.{parse_write, parse_read_delete, parse_wait}
use so.Server.Parser.Lists.{
  IsItem, print_pairs, print_keys, parse_write-print_pairs, parse_read_delete-print_keys,
  parse_write-loses_line,
}
use so.Server.Parser.Wait.{parse_wait-too_large}

read_string-overrun_example :
    (read_string 3 (codes "abcd") ≡ fault out_of_bounds)
    ↔ (IsPlain (take 3 (codes "abcd")) × (3 ≤ length (codes "abcd")))
read_string-overrun_example = read_string-overrun 3 (codes "abcd")

abbrev key_k : Bytes
key_k = codes "k"

key_k-IsItem : IsItem key_k
key_k-IsItem = record { plain = (refl, tt); text = (omega arith, tt); short = omega arith }

parse_write-print_pairs_example :
    parse_write 256 (b'[' ∷ b'(' ∷ print_pairs ((key_k, key_k) ∷ []) (b'\n' ∷ codes "SHOW"))
    ≡ ok ((key_k, key_k) ∷ [], codes "SHOW")
parse_write-print_pairs_example =
    parse_write-print_pairs 256 (key_k, key_k) [] (codes "SHOW") ((key_k-IsItem, key_k-IsItem), tt)
      (omega arith)

parse_read_delete-print_keys_example :
    parse_read_delete 256 (b'[' ∷ print_keys (key_k ∷ key_k ∷ []) (b'\n' ∷ codes "SHOW"))
    ≡ ok (key_k ∷ key_k ∷ [], codes "SHOW")
parse_read_delete-print_keys_example =
    parse_read_delete-print_keys 256 key_k (key_k ∷ []) (codes "SHOW")
      (key_k-IsItem, (key_k-IsItem, tt)) (omega arith)

parse_write-loses_line_example :
    parse_write 256 (
      b'['
      ∷ b'('
      ∷ (key_k ++ b' ' ∷ (codes "b" ++ b'\n' ∷ (codes "SHOW" ++ b'\n' ∷ codes "WAIT 1\n"))))
    ≡ ok ([], codes "WAIT 1\n")
parse_write-loses_line_example =
    parse_write-loses_line 255 key_k (codes "b") (codes "SHOW") (codes "WAIT 1\n") (refl, tt)
      (omega arith) (refl, tt) (refl, (refl, (refl, (refl, tt))))

number_fits : value_of (codes "120") ≤ uint_max
unfolding strtoul
number_fits = omega arith

abbrev big : Bytes
big = codes "99999999999"

number_large : uint_max < value_of big
unfolding strtoul
number_large = omega arith

parse_wait-too_large_example :
    parse_wait (big ++ b'\n' ∷ (codes "SHOW" ++ b'\n' ∷ []))
    ≡ ok (record { status = negsuc 0; delay = none; rest = [] })
parse_wait-too_large_example =
    parse_wait-too_large big (codes "SHOW") []
      (refl, (refl, (refl, (refl, (refl, (refl, (refl, (refl, (refl, (refl, (refl, tt)))))))))))
      (omega arith) number_large (refl, (refl, (refl, (refl, tt))))

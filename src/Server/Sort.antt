-- ===== src/Server/Sort.antt =====
-- insertionSort of SOParte2/src/server/main.c, on the pairs (keys[i], values[i]) for i below `n`.
-- The part that is sorted so far is kept backwards, as the inner loop walks it: keys[i - 1] first.
pub mod Laws
use so.Common.{ℕ, Bool, true, false, if◌then◌else◌, List, [], ◌∷◌, Bytes, str_gt}
use mathlib.Core.List.{reverse}

abbrev pub Pair : Type 0
Pair = Bytes × Bytes

-- The inner loop: larger keys move up until the place of the saved pair is found.
unfoldable pub shift : Pair → List Pair → List Pair
shift p [] = p ∷ []
shift p (q ∷ qs) = let more = q ∷ shift p qs in if str_gt q.0 p.0 then more else p ∷ q ∷ qs

-- The outer loop.
unfoldable pub sort_loop : List Pair → List Pair → List Pair
unfolding shift
sort_loop done [] = done
sort_loop done (p ∷ ps) = sort_loop (shift p done) ps

unfoldable pub insertion_sort : List Pair → List Pair
unfolding sort_loop
insertion_sort ps = reverse (sort_loop [] ps)

-- ===== src/Server/Job/SortedKeys.antt =====
-- What holds of every key of a line, after the sort and of the missing ones.
use so.Common.{Option, none, some, List, [], ◌∷◌, Bytes, All, map}
use so.Server.Sort.{Pair}
use so.Server.Sort.Laws.{All-insertion_sort}
use so.Server.Operations.{keys_of}
use so.Server.Operations.Deletes.{Map, remove_key, missing_keys, if_missing}
use so.Server.Job.{sort_keys}

module _ (P : Bytes → Type 0) where
  All-keys : (ks : List Bytes) → All P ks → All (λ (q : Pair). P q.0) (map (λ k. (k, [])) ks)
  All-keys [] h = tt
  All-keys (k ∷ ks) h = (h.0, All-keys ks h.1)

  pub All-keys_of : (ps : List Pair) → All (λ (q : Pair). P q.0) ps → All P (keys_of ps)
  unfolding keys_of
  All-keys_of [] h = tt
  All-keys_of (p ∷ ps) h = (h.0, All-keys_of ps h.1)

  -- Sorting keeps what holds of every key.
  pub All-sort_keys : (ks : List Bytes) → All P ks → All P (sort_keys ks)
  unfolding sort_keys
  All-sort_keys ks h = All-keys_of _ (All-insertion_sort (λ q. P q.0) _ (All-keys ks h))

  All-if_missing :
      (o : Option Bytes) (k : Bytes) (ks : List Bytes) → P k → All P ks → All P (if_missing o k ks)
  All-if_missing none k ks h hs = (h, hs)
  All-if_missing (some v) k ks h hs = hs

  pub All-missing_keys : (ks : List Bytes) (m : Map) → All P ks → All P (missing_keys ks m)
  All-missing_keys [] m h = tt
  All-missing_keys (k ∷ ks) m h =
      All-if_missing (m k) k _ h.0 (All-missing_keys ks (remove_key k m) h.1)

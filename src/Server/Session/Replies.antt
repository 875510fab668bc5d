-- ===== src/Server/Session/Replies.antt =====
-- What a request does to the table and what the server answers.
use so.Common.{ℕ, fault, out_of_bounds, List, [], ◌∷◌, Bytes, Run, ok, ◌≡◌}
use so.Server.Kvs.{HashTable}
use so.Server.Kvs.Notify.{Subscribes}
use so.Server.Operations.{Store, Event, wrlock, unlock, bucket, live}
use so.Server.Session.{Outcome}

-- What a request to subscribe or to end it does: the table changes, under the lock of the key's
-- bucket, and the answer is then read past its end.
pub record Overruns (can : Type 0) (old new : ℕ) (ht : HashTable) (key : Bytes) (i : ℕ)
    (change : Run (HashTable × ℕ)) (call : Run (Store × ℕ × List Event)) (run : Run Outcome)
    : Type 0 where
  pub effect : Subscribes can old new ht key change
  pub returns :
      call ≡ ok (live effect.after, effect.status, wrlock (bucket i) ∷ unlock (bucket i) ∷ [])
  pub overruns : run ≡ fault out_of_bounds

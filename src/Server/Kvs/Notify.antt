-- ===== src/Server/Kvs/Notify.antt =====
-- What a subscription does to the places of a node, and what a notification sends.
use so.Common.{
  ℕ, zero, suc, ◌<◌, if◌then◌else◌, Option, some, [], ◌∷◌, ◌++◌, Bytes, length, arith, ◌≡◌, ◌≢◌,
  refl, inl, inr, IsText, read_c_str, strncpy, pos, Run, ok, sym, ◌∙◌, ap, ◌>>=◌, str_eq,
  str_eq_refl, read_c_str-append_nul, append_assoc,
}
use so.Server.Kvs.{
  KeyNode, HashTable, hash, add_subscriber, remove_subscriber, notification, notify_clients,
  send_all, max_string_size,
}
use so.Server.Kvs.Table.{IsValid, node_of, locate-ok}
use so.Server.Kvs.Write.{Sets, node_of-find_node}
use so.Server.Kvs.Subscribers.{add_subscriber-Sets, remove_subscriber-Sets}
use so.Server.Kvs.Places.{subscribed, Effect, CanAdd, CanRemove, changed_add, changed_remove}

-- The call ends in a valid table. Where `can` holds it returns 0, the key's node keeps its key and
-- its value, the first of its places that holds `old` holds `new`, and every other place is as
-- before; else it returns 1 and the node is as before. The node of no other key changes.
pub record Subscribes (can : Type 0) (old new : ℕ) (ht : HashTable) (key : Bytes)
    (run : Run (HashTable × ℕ)) : Type 0 where
  pub after : HashTable
  pub status : ℕ
  pub returns : run ≡ ok (after, status)
  pub valid : IsValid after
  pub effect : Effect can old new (node_of ht key) (node_of after key, status)
  pub elsewhere :
      (q : Bytes) → node_of after q ≡ (if str_eq key q then node_of after key else node_of ht q)

module _ {ht : HashTable} (v : IsValid ht) (key : Bytes) {i : ℕ} (e : hash key ≡ pos i) where
  Sets-Subscribes :
      {can : Type 0} {old new status : ℕ} {r : Option KeyNode} {run : Run (HashTable × ℕ)}
      → Sets ht key r status run
      → Effect can old new (node_of ht key) (r, status)
      → Subscribes can old new ht key run
  Sets-Subscribes {can} {old} {new} {status} s f = record {
    after = s.after;
    status = status;
    returns = s.returns;
    valid = s.valid;
    effect = rw (s.reads key, str_eq_refl) f;
    elsewhere = λ q. s.reads q ∙ rw (s.reads key, str_eq_refl);
  }

  -- On a valid table and a key with a bucket, `add_subscriber` succeeds exactly where the key has
  -- a node, the descriptor is not in its places, and one of them is free: it then takes the first
  -- free one. The node's key, value and other places stay, and so do the nodes of all other keys.
  pub add_subscriber-Subscribes :
      (fd : ℕ) → Subscribes (CanAdd fd (node_of ht key)) 0 fd ht key (add_subscriber ht key fd)
  add_subscriber-Subscribes fd =
      Sets-Subscribes (add_subscriber-Sets v key e fd) (changed_add fd (node_of ht key))

  -- On a valid table and a key with a bucket, `remove_subscriber` succeeds exactly where the
  -- descriptor is in the places of the key's node: it then frees the first such place. The node's
  -- key, value and other places stay, and so do the nodes of all other keys.
  pub remove_subscriber-Subscribes :
      (fd : ℕ)
      → Subscribes (CanRemove fd (node_of ht key)) fd 0 ht key (remove_subscriber ht key fd)
  remove_subscriber-Subscribes fd =
      Sets-Subscribes (remove_subscriber-Sets v key e fd) (changed_remove fd (node_of ht key))

-- On a valid table, a descriptor other than 0 that can be added is added and then removed with
-- status 0, and every descriptor stands at as many places of the key's node as at first.
pub remove-add_subscriber :
    {ht : HashTable} (v : IsValid ht) (key : Bytes) {i : ℕ} (e : hash key ≡ pos i) (fd : ℕ)
    → fd ≢ 0
    → CanAdd fd (node_of ht key)
    → (mid : HashTable) × (after : HashTable) × (add_subscriber ht key fd ≡ ok (mid, 0))
      × (remove_subscriber mid key fd ≡ ok (after, 0))
      × ((p : ℕ) → subscribed (node_of after key) p ≡ subscribed (node_of ht key) p)
remove-add_subscriber {ht} v key {i} e fd ne can =
    let a = add_subscriber-Subscribes v key e fd in
    let r = remove_subscriber-Subscribes a.valid key e fd in go a r a.effect r.effect
  where
    go :
        (a : Subscribes (CanAdd fd (node_of ht key)) 0 fd ht key (add_subscriber ht key fd))
        (r : Subscribes
          (CanRemove fd (node_of a.after key))
          fd
          0
          a.after
          key
          (remove_subscriber a.after key fd))
        → Effect (CanAdd fd (node_of ht key)) 0 fd (node_of ht key) (node_of a.after key, a.status)
        → Effect
            (CanRemove fd (node_of a.after key))
            fd
            0
            (node_of a.after key)
            (node_of r.after key, r.status)
        → (mid : HashTable) × (after : HashTable) × (add_subscriber ht key fd ≡ ok (mid, 0))
          × (remove_subscriber mid key fd ≡ ok (after, 0))
          × ((p : ℕ) → subscribed (node_of after key) p ≡ subscribed (node_of ht key) p)
    go a r (inr (cannot, _, _)) f = absurd (cannot can)
    go a r (inl (_, zero_a, moved_a, _)) (inr (cannot, _, _)) =
        absurd (cannot (ground (arith, moved_a fd)))
    go a r (inl (_, zero_a, moved_a, _)) (inl (_, zero_r, moved_r, _)) = (
      a.after,
      r.after,
      rw zero_a at a.returns,
      rw zero_r at r.returns,
      λ p. omega (arith, moved_a p, moved_r p),
    )

strncpy-text : (s : Bytes) (n : ℕ) → length s < n → (rest : Bytes) × (strncpy s n ≡ s ++ 0 ∷ rest)
strncpy-text s zero h = absurd (omega arith)
strncpy-text [] (suc n) h = (strncpy [] n, refl)
strncpy-text (c ∷ s) (suc n) h =
    let (rest, e) = strncpy-text s n (omega arith) in (rest, ap (◌∷◌ c) e)

notification-key :
    (key value : Bytes)
    → IsText key
    → length key < max_string_size
    → read_c_str (notification key value) ≡ ok key
unfolding notification
notification-key key value text short =
    let (rest, e) = strncpy-text key max_string_size short in
    rw (e, append_assoc) (read_c_str-append_nul key _ text)

-- On a valid table, for a key with a bucket and a node and shorter than 40 bytes, `notify_clients`
-- sends the key alone, not the value, to every place of the node, the free ones (descriptor 0)
-- included.
pub notify_clients-key :
    {ht : HashTable} (v : IsValid ht) (key : Bytes) {i : ℕ} (e : hash key ≡ pos i) {n : KeyNode}
    → IsText key
    → length key < max_string_size
    → node_of ht key ≡ some n
    → notify_clients ht key ≡ ok (0, send_all key n.subscriber_fds)
unfolding notify_clients
notify_clients-key v key e {n} text short at_key = rw (
  locate-ok key v e,
  ◌>>=◌,
  sym (node_of-find_node v key e) ∙ at_key,
  notification-key key n.value text short,
)

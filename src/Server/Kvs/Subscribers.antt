-- ===== src/Server/Kvs/Subscribers.antt =====
-- Subscriptions: the places of a node, add_subscriber, remove_subscriber and notify_clients.
use so.Common.{
  ℕ, ◌+◌, ◌==◌, if◌then◌else◌, false, Option, none, some, List, [], ◌∷◌, Bytes, length, arith, ◌≡◌,
  ◌↔◌, refl, inl, inr, pos, ◌∙◌, Option-cases, ◌>>=◌,
}
use so.Server.Kvs.{
  KeyNode, HashTable, chain_at, hash, find_node, set_fds, has_fd, replace_fd, add_fd, change_fds,
  add_subscriber, remove_subscriber,
}
use so.Server.Kvs.Table.{IsValid, node_of, locate-ok}
use so.Server.Kvs.Write.{Sets, node_of-find_node, unchanged-Sets, update-Sets}

-- How many of the places hold the descriptor.
abbrev pub count_fd : ℕ → List ℕ → ℕ
count_fd fd [] = 0
count_fd fd (x ∷ xs) = (if x == fd then 1 else 0) + count_fd fd xs

pub has_fd_iff_count : (fd : ℕ) (fds : List ℕ) → has_fd fd fds ≡ false → count_fd fd fds ≡ 0
unfolding has_fd
has_fd_iff_count fd [] h = refl
has_fd_iff_count fd (x ∷ fds) h = ground (arith, has_fd_iff_count fd fds)

-- A replacement moves one place from `old` to `new`, and keeps the number of places.
pub replace_fd-count :
    (old new q : ℕ) (fds : List ℕ) {after : List ℕ}
    → replace_fd old new fds ≡ some after
    → (length after ≡ length fds)
      × (count_fd q after + (if old == q then 1 else 0)
          ≡ count_fd q fds + (if new == q then 1 else 0))
unfolding replace_fd
replace_fd-count old new q [] h = absurd (cc)
replace_fd-count old new q (x ∷ fds) {after} h = elim (Option-cases (replace_fd old new fds)) [
  | inl stop ↦ ground arith
  | inr (ys, more) ↦ ground (arith, replace_fd-count old new q fds more)
]

pub replace_fd-none :
    (old new : ℕ) (fds : List ℕ) → (replace_fd old new fds ≡ none) ↔ (count_fd old fds ≡ 0)
unfolding replace_fd
replace_fd-none old new [] = ground arith
replace_fd-none old new (x ∷ fds) = ground (arith, replace_fd-none old new fds)

-- What becomes of the node of a key when its places are changed.
abbrev pub changed : (List ℕ → Option (List ℕ)) → Option KeyNode → Option KeyNode × ℕ
changed change none = (none, 1)
changed change (some n) = elim (change n.subscriber_fds) [
  | some fds ↦ (some (set_fds fds n), 0)
  | none ↦ (some n, 1)
]

module _ {ht : HashTable} (v : IsValid ht) (key : Bytes) {i : ℕ} (e : hash key ≡ pos i) where
  change_fds-Sets :
      (change : List ℕ → Option (List ℕ))
      → Sets ht key
          (changed change (node_of ht key)).0
          (changed change (node_of ht key)).1
          (change_fds change ht key)
  unfolding change_fds
  change_fds-Sets change = elim (Option-cases (find_node key (chain_at ht i))) [
    | inl absent ↦
        let here = node_of-find_node v key e ∙ absent in
        rw here (
          rw here at (
            unchanged-Sets v key e 1 {run = change_fds change ht key}
              (rw (locate-ok key v e, ◌>>=◌, absent))))
    | inr (n, found) ↦
        let here = node_of-find_node v key e ∙ found in
        elim (Option-cases (change n.subscriber_fds)) [
          | inl same ↦
              rw (here, changed, same)
                (rw here at (
                  unchanged-Sets v key e 1 {run = change_fds change ht key}
                    (rw (locate-ok key v e, ◌>>=◌, found, same))))
          | inr (fds, new) ↦
              rw (here, changed, new)
                (update-Sets v key e (set_fds fds) (λ _. refl) found
                  (rw (locate-ok key v e, ◌>>=◌, found, new)))
        ]
  ]

  pub add_subscriber-Sets :
      (fd : ℕ)
      → Sets ht key
          (changed (add_fd fd) (node_of ht key)).0
          (changed (add_fd fd) (node_of ht key)).1
          (add_subscriber ht key fd)
  unfolding add_subscriber
  add_subscriber-Sets fd = change_fds-Sets (add_fd fd)

  pub remove_subscriber-Sets :
      (fd : ℕ)
      → Sets ht key
          (changed (replace_fd fd 0) (node_of ht key)).0
          (changed (replace_fd fd 0) (node_of ht key)).1
          (remove_subscriber ht key fd)
  unfolding remove_subscriber
  remove_subscriber-Sets fd = change_fds-Sets (replace_fd fd 0)

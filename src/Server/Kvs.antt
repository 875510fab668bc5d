-- ===== src/Server/Kvs.antt =====
-- SOParte2/src/server/kvs.c and kvs.h: the hash table. A chain is the list of its nodes; a loop
-- that walks a chain up to the first node with the key is `find_node`, and what it then does to
-- that node is `update_node` or `unlink`. A file descriptor is the number that
-- its `int` holds; what `malloc` leaves in the places of a new node is taken for such numbers too,
-- although it may be negative there.
pub mod Chain
pub mod Table
pub mod Write
pub mod Subscribers
pub mod Places
pub mod Notify
use so.Common.{
  ℕ, zero, suc, ◌+◌, ◌-◌, ◌==◌, leb, if◌then◌else◌, ◌&&◌, Bool, true, false, Option, none, some,
  List, [], ◌∷◌, ◌++◌, Bytes, str_eq, strncpy, read_c_str, ℤ, pos, negsuc, Run, ok, fault,
  null_pointer, in_bounds, length, get_or, set, replicate, Ordering, ◌>>=◌,
}

-- constants.h of the server and of common/
abbrev pub max_session_count : ℕ
max_session_count = 3

abbrev pub max_string_size : ℕ
max_string_size = 40

abbrev pub table_size : ℕ
table_size = 26

pub record KeyNode : Type 0 where
  pub key : Bytes
  pub value : Bytes
  -- `int subscriber_fds[MAX_SESSION_COUNT]`; 0 marks a free place
  pub subscriber_fds : List ℕ

abbrev pub Chain : Type 0
Chain = List KeyNode

pub record HashTable : Type 0 where
  pub table : List Chain

-- `tolower` of the C locale
abbrev pub tolower : ℕ → ℕ
tolower c = if leb b'A' c && leb c b'Z' then c + 32 else c

-- `key[0]`
abbrev pub first_byte : Bytes → ℕ
first_byte [] = 0
first_byte (c ∷ cs) = c

abbrev pub index_of_letter : ℕ → ℤ
index_of_letter c =
    if leb b'a' c && leb c b'z'
    then pos (c - b'a')
    else if leb b'0' c && leb c b'9'
    then pos (c - b'0')
    else negsuc 0

unfoldable pub hash : Bytes → ℤ
hash key = index_of_letter (tolower (first_byte key))

-- The chain that `ht->table[i]` heads.
abbrev pub chain_at : HashTable → ℕ → Chain
chain_at ht i = get_or ht.table i []

abbrev pub set_chain : HashTable → ℕ → Chain → HashTable
set_chain ht i c = record { table = set ht.table i c }

-- `ht->table[hash(key)]`, by its index
abbrev pub locate : HashTable → Bytes → Run ℕ
locate ht key = in_bounds (hash key) (length ht.table)

-- Where the loop `while (keyNode != NULL)` stops: at the first node with the key, if any.
unfoldable pub find_node : Bytes → Chain → Option KeyNode
find_node key [] = none
find_node key (n ∷ c) = if str_eq n.key key then some n else find_node key c

unfoldable pub update_node : (KeyNode → KeyNode) → Bytes → Chain → Chain
update_node f key [] = []
update_node f key (n ∷ c) = if str_eq n.key key then f n ∷ c else n ∷ update_node f key c

-- `prevNode->next = keyNode->next`, or the head of the chain where there is no `prevNode`
unfoldable pub unlink : Bytes → Chain → Chain
unlink key [] = []
unlink key (n ∷ c) = if str_eq n.key key then c else n ∷ unlink key c

-- The argument says whether `malloc` succeeds.
unfoldable pub create_hash_table : Bool → Option HashTable
create_hash_table true = some (record { table = replicate table_size [] })
create_hash_table false = none

-- The new node: `malloc` returns NULL, or memory where `subscriber_fds` has the given contents,
-- which the function never sets.
unfoldable pub new_node : Option (List ℕ) → Bytes → Bytes → Run KeyNode
new_node none key value = fault null_pointer
new_node (some fds) key value = ok (record { key = key; value = value; subscriber_fds = fds })

abbrev pub set_value : Bytes → KeyNode → KeyNode
set_value value n = record n { value = value }

unfoldable pub write_pair : Option (List ℕ) → HashTable → Bytes → Bytes → Run (HashTable × ℕ)
unfolding new_node
write_pair memory ht key value = do
  i ← locate ht key
  elim (find_node key (chain_at ht i)) [
    | some _ ↦ ok (set_chain ht i (update_node (set_value value) key (chain_at ht i)), 0)
    | none ↦ do n ← new_node memory key value; ok (set_chain ht i (n ∷ chain_at ht i), 0)
  ]

-- `none` is the NULL that a missing key gives.
unfoldable pub read_pair : HashTable → Bytes → Run (Option Bytes)
read_pair ht key = do
  i ← locate ht key
  elim (find_node key (chain_at ht i)) [ some n ↦ ok (some n.value) | none ↦ ok none ]

unfoldable pub delete_pair : HashTable → Bytes → Run (HashTable × ℕ)
delete_pair ht key = do
  i ← locate ht key
  elim (find_node key (chain_at ht i)) [
    | some _ ↦ ok (set_chain ht i (unlink key (chain_at ht i)), 0)
    | none ↦ ok (ht, 1)
  ]

-- the loop that looks for the subscriber
unfoldable pub has_fd : ℕ → List ℕ → Bool
has_fd fd [] = false
has_fd fd (x ∷ xs) = if x == fd then true else has_fd fd xs

-- `new` in the first place that holds `old`; `none` where no place does
unfoldable pub replace_fd : ℕ → ℕ → List ℕ → Option (List ℕ)
replace_fd old new [] = none
replace_fd old new (x ∷ xs) =
    if x == old
    then some (new ∷ xs)
    else elim (replace_fd old new xs) [ some ys ↦ some (x ∷ ys) | none ↦ none ]

abbrev pub set_fds : List ℕ → KeyNode → KeyNode
set_fds fds n = record n { subscriber_fds = fds }

-- the places of a node after `add_subscriber`, if it adds the subscriber
unfoldable pub add_fd : ℕ → List ℕ → Option (List ℕ)
add_fd fd fds = if has_fd fd fds then none else replace_fd 0 fd fds

-- What `add_subscriber` and `remove_subscriber` share: find the node, change its places.
unfoldable pub change_fds : (List ℕ → Option (List ℕ)) → HashTable → Bytes → Run (HashTable × ℕ)
change_fds change ht key = do
  i ← locate ht key
  elim (find_node key (chain_at ht i)) [
    | none ↦ ok (ht, 1)
    | some n ↦ elim (change n.subscriber_fds) [
      | none ↦ ok (ht, 1)
      | some fds ↦ ok (set_chain ht i (update_node (set_fds fds) key (chain_at ht i)), 0)
    ]
  ]

unfoldable pub add_subscriber : HashTable → Bytes → ℕ → Run (HashTable × ℕ)
unfolding change_fds
add_subscriber ht key fd = change_fds (add_fd fd) ht key

unfoldable pub remove_subscriber : HashTable → Bytes → ℕ → Run (HashTable × ℕ)
unfolding change_fds
remove_subscriber ht key fd = change_fds (replace_fd fd 0) ht key

-- the two `strncpy` calls on `notification`
unfoldable pub notification : Bytes → Bytes → Bytes
notification key value = strncpy key max_string_size ++ strncpy value max_string_size

unfoldable pub send_all : Bytes → List ℕ → List (ℕ × Bytes)
send_all message [] = []
send_all message (fd ∷ fds) = (fd, message) ∷ send_all message fds

-- The return value, and what `send_msg` is given: a descriptor and the string to send.
unfoldable pub notify_clients : HashTable → Bytes → Run (ℕ × List (ℕ × Bytes))
unfolding notification send_all
notify_clients ht key = do
  i ← locate ht key
  elim (find_node key (chain_at ht i)) [
    | none ↦ ok (1, [])
    | some n ↦ do
      message ← read_c_str (notification key n.value)
      ok (0, send_all message n.subscriber_fds)
  ]

-- The nodes that `free_table` frees, in order, before the table.
unfoldable pub freed_nodes : List Chain → List KeyNode
freed_nodes [] = []
freed_nodes (c ∷ cs) = c ++ freed_nodes cs

unfoldable pub free_table : HashTable → List KeyNode
unfolding freed_nodes
free_table ht = freed_nodes ht.table

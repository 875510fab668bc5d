-- ===== src/Server/Locking/Brackets.antt =====
-- What the operations do between the locks of the buckets, and around them.
use so.Common.{
  Bool, false, List, [], ◌∷◌, ◌++◌, Bytes, All, ok, get_or-replicate, arith, ◌≡◌, refl, sym, ◌∙◌,
  append_assoc,
}
use so.Server.Kvs.{table_size}
use so.Server.Operations.{
  Lock, global, backups, bucket, Event, rdlock, wrlock, unlock, output, lock_loop, unlock_loop,
  none_hashed,
}
use so.Server.Operations.LockOrder.{IsLower, IsSortedKeys, none_hashed-length}
use so.Server.Locking.{Hold, free, shared, owned, hold, none_held}
use so.Server.Locking.Order.{IsAbove, IsOrderly}
use so.Server.Locking.Holds.{
  holds, only_global, holds-none, LeadsTo, TakesAs, IsOrderly-same, lock_loop-LeadsTo,
  unlock_loop-IsOrderly,
}

-- The events keep to the order, whatever orderly events follow.
abbrev pub KeepsOrder : List Event → Type 0
KeepsOrder events =
    (rest : List Event) → IsOrderly none_held rest → IsOrderly none_held (events ++ rest)

pub only_none : (m : Lock) → only_global free m ≡ none_held m
only_none global = refl
only_none backups = refl
only_none (bucket j) = refl

take_global : (m : Lock) → hold none_held global shared m ≡ only_global shared m
take_global global = refl
take_global backups = refl
take_global (bucket j) = refl

give_global : (m : Lock) → hold (only_global shared) global free m ≡ none_held m
give_global global = refl
give_global backups = refl
give_global (bucket j) = refl

global-IsAbove : IsAbove none_held global
global-IsAbove = (λ m h. absurd (h refl), omega arith)

-- Only output, and no lock.
abbrev pub IsOutputs : List Event → Type 0
IsOutputs [] = Unit
IsOutputs (output text ∷ es) = IsOutputs es
IsOutputs _ = ⊥

pub outputs-IsOrderly :
    (held : Lock → Hold) (es rest : List Event)
    → IsOutputs es
    → IsOrderly held rest
    → IsOrderly held (es ++ rest)
outputs-IsOrderly held [] rest o h = h
outputs-IsOrderly held (output text ∷ es) rest o h = outputs-IsOrderly held es rest o h
outputs-IsOrderly held (rdlock l ∷ es) rest o h = absurd o
outputs-IsOrderly held (wrlock l ∷ es) rest o h = absurd o
outputs-IsOrderly held (unlock l ∷ es) rest o h = absurd o

-- The locks of a list of keys, from no mark on.
pub keys_lead :
    (kind : Lock → Event) (mode : Hold)
    → TakesAs kind mode
    → (g : Hold) (keys : List Bytes) → All IsLower keys
    → IsSortedKeys keys
    → (r : List Bool × List Event) × (lock_loop kind keys none_hashed ≡ ok r)
      × LeadsTo mode g none_hashed r
keys_lead kind mode taking g keys lower sorted =
    lock_loop-LeadsTo kind mode taking g keys none_hashed none_hashed-length lower sorted
      (λ j m. absurd (ground (arith, m, get_or-replicate table_size j false)))

-- Between the global lock, taken for reading, and its release.
pub between_global :
    (marks : List Bool) (locks middle rest : List Event)
    → LeadsTo owned shared none_hashed (marks, locks)
    → IsOutputs middle
    → IsOrderly none_held rest
    → IsOrderly none_held (
        ((rdlock global ∷ locks) ++ (middle ++ (unlock_loop 0 marks ++ unlock global ∷ [])))
        ++ rest)
between_global marks locks middle rest leads quiet h =
    let unlocks = unlock_loop 0 marks ++ unlock global ∷ rest in
    (
      global-IsAbove,
      IsOrderly-same ((locks ++ (middle ++ (unlock_loop 0 marks ++ unlock global ∷ []))) ++ rest)
          take_global
          (rw (append_assoc locks, append_assoc middle, append_assoc (unlock_loop 0 marks))
            (IsOrderly-same (locks ++ (middle ++ unlocks)) (λ m. sym (holds-none owned shared m))
              (leads (middle ++ unlocks) (
                outputs-IsOrderly (holds 0 marks owned shared) middle unlocks quiet (
                  unlock_loop-IsOrderly 0 marks owned shared (unlock global ∷ rest)
                    (IsOrderly-same rest give_global h)))))),
    )

-- Between the locks of the buckets alone.
pub between_buckets :
    (marks : List Bool) (locks middle rest : List Event)
    → LeadsTo shared free none_hashed (marks, locks)
    → IsOutputs middle
    → IsOrderly none_held rest
    → IsOrderly none_held ((locks ++ (middle ++ unlock_loop 0 marks)) ++ rest)
between_buckets marks locks middle rest leads quiet h =
    let unlocks = unlock_loop 0 marks ++ rest in
    rw (append_assoc locks, append_assoc middle)
      (IsOrderly-same (locks ++ (middle ++ unlocks))
        (λ m. sym (holds-none shared free m ∙ only_none m))
        (leads (middle ++ unlocks) (
          outputs-IsOrderly (holds 0 marks shared free) middle unlocks quiet
            (unlock_loop-IsOrderly 0 marks shared free rest (IsOrderly-same rest only_none h)))))

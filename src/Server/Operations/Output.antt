-- ===== src/Server/Operations/Output.antt =====
-- What the events of an operation put into the output file.
use so.Common.{
  List, [], ◌∷◌, ◌++◌, Bytes, Bool, ℕ, suc, ◌≡◌, refl, append_assoc, sym, false, true, append-nil,
}
use so.Server.Operations.{Event, rdlock, wrlock, unlock, output, unlock_loop}

-- The bytes written, in order.
abbrev pub said : List Event → Bytes
said [] = []
said (output text ∷ es) = text ++ said es
said (_ ∷ es) = said es

pub said-append : (xs ys : List Event) → said (xs ++ ys) ≡ said xs ++ said ys
said-append [] ys = refl
said-append (output text ∷ xs) ys =
    rw (said-append xs ys) (sym (append_assoc text (said xs) (said ys)))
said-append (rdlock l ∷ xs) ys = said-append xs ys
said-append (wrlock l ∷ xs) ys = said-append xs ys
said-append (unlock l ∷ xs) ys = said-append xs ys

pub unlock_loop-said : (i : ℕ) (hashed : List Bool) → said (unlock_loop i hashed) ≡ []
unfolding unlock_loop
unlock_loop-said i [] = refl
unlock_loop-said i (true ∷ bs) = unlock_loop-said (suc i) bs
unlock_loop-said i (false ∷ bs) = unlock_loop-said (suc i) bs

-- What stands between silent locks and silent unlocks is all that is written.
pub between-said :
    (locks middle unlocks : List Event)
    → said locks ≡ []
    → said unlocks ≡ []
    → said (locks ++ (middle ++ unlocks)) ≡ said middle
between-said locks middle unlocks h k =
    rw (said-append locks (middle ++ unlocks), said-append middle unlocks, h, k)
      (append-nil (said middle))

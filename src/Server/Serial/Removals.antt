-- ===== src/Server/Serial/Removals.antt =====
-- delete_loop of kvs_delete and its accesses.
use mathlib.Core.Path.{fun_ext, subst}
use so.Common.{
  ◌==◌, ==_iff, ℕ, if◌then◌else◌, Bool, true, false, none, some, List, [], ◌∷◌, ◌++◌, Bytes, codes,
  All, pos, ok, fault, ◌>>=◌, append_assoc, append-nil, ◌≡◌, ◌∙◌, sym, ap, Bool-cases, Option-cases,
  inl, inr, Fault,
}
use so.Server.Kvs.{
  Chain, HashTable, chain_at, set_chain, hash, find_node, delete_pair, KeyNode, unlink,
}
use so.Server.Operations.{delete_loop, Event, sprintf, output, missing_reply}
use so.Server.Operations.Output.{said}
use so.Server.Operations.Locks.{HasBucket}
use so.Server.Serial.{Access, run, update}
use so.Server.Serial.Chains.{IsWhole, located_at, chain_at-set_chain, set_chain-IsWhole, Run-cases}
use so.Server.Serial.Commands.{Local, removals, remove_from, report}

update-same : (f : ℕ → Chain) (i : ℕ) → update f i (f i) ≡ f
update-same f i = fun_ext (λ j. elim (Bool-cases (i == j)) [
  | inl at ↦ rw at (ap f ((==_iff i j).0 at))
  | inr not_at ↦ rw not_at
])

module _ (ht : HashTable) (w : IsWhole ht) (k : Bytes) {i : ℕ} (e : hash k ≡ pos i) where
  delete_pair-found :
      {n : KeyNode}
      → find_node k (chain_at ht i) ≡ some n
      → delete_pair ht k ≡ ok (set_chain ht i (unlink k (chain_at ht i)), 0)
  unfolding delete_pair
  delete_pair-found found = rw (located_at ht w k e, ◌>>=◌, found)

  delete_pair-absent : find_node k (chain_at ht i) ≡ none → delete_pair ht k ≡ ok (ht, 1)
  unfolding delete_pair
  delete_pair-absent absent = rw (located_at ht w k e, ◌>>=◌, absent)

remove_from-found :
    (k : Bytes) (l : Local) (c : Chain) {n : KeyNode}
    → find_node k c ≡ some n
    → remove_from k l c ≡ (l, unlink k c)
remove_from-found k l c found = rw (remove_from, found)

remove_from-absent :
    (k out : Bytes) (b : Bool) (c : Chain) {buffer : Bytes}
    → find_node k c ≡ none
    → sprintf (missing_reply k) ≡ ok buffer
    → remove_from k (ok (out, b)) c
      ≡ (ok (out ++ (if b then buffer else codes "[" ++ buffer), true), c)
remove_from-absent k out b c absent printed = rw (remove_from, absent, report, ◌>>=◌, printed)

-- The events that report a missing key say what the access adds.
abbrev reporting : Bool → Bytes → List Event → List Event
reporting b buffer rest =
    if b then output buffer ∷ rest else output (codes "[") ∷ output buffer ∷ rest

said-reporting :
    (b : Bool) (out buffer : Bytes) (rest : List Event)
    → (out ++ (if b then buffer else codes "[" ++ buffer)) ++ said rest
      ≡ out ++ said (reporting b buffer rest)
said-reporting true out buffer rest = append_assoc out buffer (said rest)
said-reporting false out buffer rest = append_assoc out (codes "[" ++ buffer) (said rest)

pub ok-injective : {A : Type 0} {a b : A} → ok a ≡ ok b → a ≡ b
ok-injective e = cc

module _ (b : Bool) (k : Bytes) (ks : List Bytes) (ht : HashTable)
    (missed : delete_pair ht k ≡ ok (ht, 1)) where
  delete_loop-absent :
      {buffer : Bytes} {r : HashTable × Bool × List Event}
      → sprintf (missing_reply k) ≡ ok buffer
      → delete_loop true ks ht ≡ ok r
      → delete_loop b (k ∷ ks) ht ≡ ok (r.0, r.1, reporting b buffer r.2)
  unfolding delete_loop
  delete_loop-absent printed others = rw (missed, ◌>>=◌, printed, ◌>>=◌, others)

  delete_loop-unprinted :
      {why : Fault} → sprintf (missing_reply k) ≡ fault why → delete_loop b (k ∷ ks) ht ≡ fault why
  unfolding delete_loop
  delete_loop-unprinted stopped = rw (missed, ◌>>=◌, stopped)

  delete_loop-stopped :
      {buffer : Bytes} {why : Fault}
      → sprintf (missing_reply k) ≡ ok buffer
      → delete_loop true ks ht ≡ fault why
      → delete_loop b (k ∷ ks) ht ≡ fault why
  unfolding delete_loop
  delete_loop-stopped printed stopped = rw (missed, ◌>>=◌, printed, ◌>>=◌, stopped)

-- The removals do what the loop does where it returns.
abbrev pub Removes :
    List Bytes
    → List (Access Chain Local)
    → Bytes
    → Bool
    → HashTable
    → HashTable × Bool × List Event
    → Type 0
Removes keys last out b ht r =
    (run (removals keys last) (ok (out, b), chain_at ht)
      ≡ run last (ok (out ++ said r.2, r.1), chain_at r.0))
    × IsWhole r.0

absent-Removes :
    (k : Bytes) (ks : List Bytes) (last : List (Access Chain Local)) (out : Bytes) (b : Bool)
    (ht : HashTable) (s : HashTable × Bool × List Event) (buffer : Bytes) {i : ℕ}
    → hash k ≡ pos i
    → find_node k (chain_at ht i) ≡ none
    → sprintf (missing_reply k) ≡ ok buffer
    → Removes ks last (out ++ (if b then buffer else codes "[" ++ buffer)) true ht s
    → Removes (k ∷ ks) last out b ht (s.0, s.1, reporting b buffer s.2)
unfolding removals run
absent-Removes k ks last out b ht s buffer {i} e absent printed rest = (
  rw e (
        ap (λ r. run (removals ks last) (r.0, update (chain_at ht) i r.1))
          (remove_from-absent k out b (chain_at ht i) absent printed))
      ∙ ap
          (λ f.
            run (removals ks last)
              (ok (out ++ (if b then buffer else codes "[" ++ buffer), true), f))
          (update-same (chain_at ht) i)
      ∙ rest.0
      ∙ ap (λ t. run last (ok (t, s.1), chain_at s.0)) (said-reporting b out buffer s.2),
  rest.1,
)

pub removals-Removes :
    (keys : List Bytes) (last : List (Access Chain Local)) (out : Bytes) (b : Bool) (ht : HashTable)
    (r : HashTable × Bool × List Event)
    → IsWhole ht
    → All HasBucket keys
    → delete_loop b keys ht ≡ ok r
    → Removes keys last out b ht r
unfolding delete_loop removals run
removals-Removes [] last out b ht r w all ended =
    subst (Removes [] last out b ht) (ok-injective ended) (rw (append-nil), w)
removals-Removes (k ∷ ks) last out b ht r w ((i, e), all) ended =
    elim (Option-cases (find_node k (chain_at ht i))) [
      | inr (n, found) ↦
          let c = unlink k (chain_at ht i) in
          let next =
            removals-Removes ks last out b (set_chain ht i c) r (set_chain-IsWhole ht w k e c) all
              (rw (delete_pair-found ht w k e found, ◌>>=◌) at ended) in
          (
            rw e (
                  ap (λ r. run (removals ks last) (r.0, update (chain_at ht) i r.1))
                    (remove_from-found k (ok (out, b)) (chain_at ht i) found))
                ∙ ap (λ f. run (removals ks last) (ok (out, b), f))
                    (sym (chain_at-set_chain ht w k e c))
                ∙ next.0,
            next.1,
          )
      | inl absent ↦
          let missed = delete_pair-absent ht w k e absent in
          elim (Run-cases (sprintf (missing_reply k))) [
            | inr (why, stopped) ↦ let no = delete_loop-unprinted b k ks ht missed stopped in cc
            | inl (buffer, printed) ↦ elim (Run-cases (delete_loop true ks ht)) [
              | inr (why, stopped) ↦
                  let no = delete_loop-stopped b k ks ht missed printed stopped in cc
              | inl (s, answered) ↦
                  subst (Removes (k ∷ ks) last out b ht)
                    (ok-injective
                      (sym (delete_loop-absent b k ks ht missed printed answered) ∙ ended))
                    (absent-Removes k ks last out b ht s buffer e absent printed
                      (removals-Removes ks last _ true ht s w all answered))
            ]
          ]
    ]

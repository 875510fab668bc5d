-- ===== src/Server/Kvs/Places.antt =====
-- What add_subscriber and remove_subscriber do to the places of a node.
use so.Common.{
  ℕ, ◌+◌, ◌<◌, ◌==◌, if◌then◌else◌, Bool, true, false, Option, none, some, List, [], ◌∷◌, ◌++◌,
  arith, ◌≡◌, refl, Bool-cases, inl, inr, ◌⊎◌, ap, Option-cases,
}
use so.Server.Kvs.{KeyNode, has_fd, replace_fd, add_fd}
use so.Server.Kvs.Subscribers.{
  count_fd, has_fd_iff_count, replace_fd-count, replace_fd-none, changed,
}

-- How many places of a key's node hold the descriptor.
abbrev pub subscribed : Option KeyNode → ℕ → ℕ
subscribed none p = 0
subscribed (some n) p = count_fd p n.subscriber_fds

abbrev pub one_if : Bool → ℕ
one_if true = 1
one_if false = 0

-- `p` is at as many places as before, but one more if it is `new` and one less if it is `old`.
abbrev pub Moved : ℕ → ℕ → Option KeyNode → Option KeyNode → Type 0
Moved old new r s =
    (p : ℕ) → subscribed s p + one_if (old == p) ≡ subscribed r p + one_if (new == p)

has_fd-false_of_zero : (fd : ℕ) (fds : List ℕ) → count_fd fd fds ≡ 0 → has_fd fd fds ≡ false
unfolding has_fd
has_fd-false_of_zero fd [] h = refl
has_fd-false_of_zero fd (x ∷ fds) h = ground (arith, has_fd-false_of_zero fd fds)

-- The first place that holds `old` holds `new`, and every other place is as before.
abbrev pub OnePlace : ℕ → ℕ → List ℕ → List ℕ → Type 0
OnePlace old new fds after =
    (front : List ℕ) × (back : List ℕ) × (fds ≡ front ++ old ∷ back)
    × (after ≡ front ++ new ∷ back)
    × (count_fd old front ≡ 0)

-- The node stays, with its key and its value, and one of its places changes.
abbrev pub KeepsNode : ℕ → ℕ → Option KeyNode → Option KeyNode → Type 0
KeepsNode old new r s =
    (n : KeyNode) × (m : KeyNode) × (r ≡ some n)
    × (s ≡ some m)
    × (m.key ≡ n.key)
    × (m.value ≡ n.value)
    × OnePlace old new n.subscriber_fds m.subscriber_fds

-- A status of `add_subscriber` and of `remove_subscriber` is 0 or 1.
abbrev pub Effect : Type 0 → ℕ → ℕ → Option KeyNode → Option KeyNode × ℕ → Type 0
Effect can old new r (s, status) =
    (can × (status ≡ 0) × Moved old new r s × KeepsNode old new r s)
    ⊎ ((¬ can) × (status ≡ 1) × (s ≡ r))

replace_fd-OnePlace :
    (old new : ℕ) (fds : List ℕ) {after : List ℕ}
    → replace_fd old new fds ≡ some after
    → OnePlace old new fds after
unfolding replace_fd
replace_fd-OnePlace old new [] h = absurd (cc)
replace_fd-OnePlace old new (x ∷ fds) {after} h = elim (Bool-cases (x == old)) [
  | inl here ↦
      let e : ◌≡◌ {A = Option (List ℕ)} (some (new ∷ fds)) (some after) = rw here at h in
      ([], fds, ground (arith), cc, refl)
  | inr other ↦ elim (Option-cases (replace_fd old new fds)) [
    | inl stop ↦ absurd (ground arith)
    | inr (ys, more) ↦
        let (front, back, was, now, first) = replace_fd-OnePlace old new fds more in
        let counted : count_fd old (x ∷ front) ≡ 0 + count_fd old front = rw other in
        let e : ◌≡◌ {A = Option (List ℕ)} (some (x ∷ ys)) (some after) =
          rw (other, if◌then◌else◌, more) at h in
        (x ∷ front, back, ap (◌∷◌ x) was, cc, omega (arith, first, counted))
  ]
]

abbrev pub CanAdd : ℕ → Option KeyNode → Type 0
CanAdd fd r = (subscribed r fd ≡ 0) × (0 < subscribed r 0)

abbrev pub CanRemove : ℕ → Option KeyNode → Type 0
CanRemove fd r = 0 < subscribed r fd

pub changed_add :
    (fd : ℕ) (r : Option KeyNode) → Effect (CanAdd fd r) 0 fd r (changed (add_fd fd) r)
unfolding add_fd
changed_add fd none = inr ((λ c. absurd (omega arith)), refl, refl)
changed_add fd (some n) = elim (Bool-cases (has_fd fd n.subscriber_fds)) [
  | inl there ↦
      rw (changed, there)
        (inr ((λ c. ground (arith, has_fd-false_of_zero fd n.subscriber_fds c.0)), refl, refl))
  | inr away ↦ elim (Option-cases (replace_fd 0 fd n.subscriber_fds)) [
    | inl full ↦
        rw (changed, away, if◌then◌else◌, full)
          (inr ((λ c. omega (arith, (replace_fd-none 0 fd n.subscriber_fds).0 full)), refl, refl))
    | inr (after, done) ↦
        rw (changed, away, if◌then◌else◌, done)
          (inl (
            ground (
              arith,
              has_fd_iff_count fd n.subscriber_fds,
              replace_fd-none 0 fd n.subscriber_fds,
            ),
            refl,
            (λ p. ground (arith, replace_fd-count 0 fd p n.subscriber_fds done)),
            (n, _, refl, refl, refl, refl, replace_fd-OnePlace 0 fd n.subscriber_fds done),
          ))
  ]
]

pub changed_remove :
    (fd : ℕ) (r : Option KeyNode) → Effect (CanRemove fd r) fd 0 r (changed (replace_fd fd 0) r)
changed_remove fd none = inr ((λ c. absurd (omega arith)), refl, refl)
changed_remove fd (some n) = elim (Option-cases (replace_fd fd 0 n.subscriber_fds)) [
  | inl stop ↦
      rw (changed, stop)
        (inr ((λ c. omega (arith, (replace_fd-none fd 0 n.subscriber_fds).0 stop)), refl, refl))
  | inr (after, done) ↦
      rw (changed, done)
        (inl (
          ground (arith, replace_fd-none fd 0 n.subscriber_fds),
          refl,
          (λ p. ground (arith, replace_fd-count fd 0 p n.subscriber_fds done)),
          (n, _, refl, refl, refl, refl, replace_fd-OnePlace fd 0 n.subscriber_fds done),
        ))
]

-- ===== src/Transfer/Complete.antt =====
-- write_all and send_msg under short writes, interruptions and failures.
use so.Common.{
  ℕ, zero, suc, ◌≤◌, List, [], ◌∷◌, ◌++◌, Bytes, All, pos, negsuc, length, take, drop, Option, some,
  none, arith, ◌≡◌, refl, ap, ◌∙◌, append_assoc, sym, inl, ◌⊎◌, inr,
}
use so.Transfer.{
  WriteCall, accepted, write_interrupted, write_failed, WriteAll, also_sent, write_all, send_msg,
}

take-drop : (n : ℕ) (xs : Bytes) → take n xs ++ drop n xs ≡ xs
take-drop zero xs = refl
take-drop (suc n) [] = refl
take-drop (suc n) (x ∷ xs) = ap (◌∷◌ x) (take-drop n xs)

length-drop_le : (n : ℕ) (xs : Bytes) → length (drop n xs) ≤ length xs
length-drop_le zero xs = omega arith
length-drop_le (suc n) [] = omega arith
length-drop_le (suc n) (x ∷ xs) = omega (arith, length-drop_le n xs)

-- The call takes at least one byte.
abbrev pub MovesOn : WriteCall → Type 0
MovesOn (accepted n) = 1 ≤ n
MovesOn _ = ⊥

complete :
    (n : ℕ) (c : ℕ) (cs : Bytes)
    → also_sent (take n (c ∷ cs)) (some (record { sent = drop n (c ∷ cs); status = pos 1 }))
      ≡ some (record { sent = c ∷ cs; status = pos 1 })
complete n c cs = ap (λ s. some (record { sent = s; status = pos 1 })) (take-drop n (c ∷ cs))

-- With at least as many calls as there are bytes, each of which takes a byte or more, `write_all`
-- returns 1 and `send_msg` ends, and both have written the whole buffer, in order.
pub write_all_complete :
    (buffer : Bytes) (calls : List WriteCall)
    → All MovesOn calls
    → length buffer ≤ length calls
    → (write_all buffer calls ≡ some (record { sent = buffer; status = pos 1 }))
      × (send_msg buffer calls ≡ some (record { sent = buffer; status = pos 1 }))
unfolding write_all send_msg
write_all_complete [] calls h l = (refl, refl)
write_all_complete (c ∷ cs) [] h l = absurd (omega arith)
write_all_complete (c ∷ cs) (accepted (suc n) ∷ calls) h l =
    let (e, f) = write_all_complete (drop n cs) calls h.1 (omega (arith, length-drop_le n cs)) in
    (rw e (complete (suc n) c cs), rw f (complete (suc n) c cs))
write_all_complete (c ∷ cs) (accepted zero ∷ calls) h l = absurd (omega (arith, h.0))
write_all_complete (c ∷ cs) (write_interrupted ∷ calls) h l = absurd h.0
write_all_complete (c ∷ cs) (write_failed ∷ calls) h l = absurd h.0

-- What a run has written is the front of the buffer, and all of it where the status is 1.
pub record Wrote (buffer : Bytes) (w : WriteAll) : Type 0 where
  pub left : Bytes
  pub front : buffer ≡ w.sent ++ left
  pub whole : ((w.status ≡ pos 1) × (left ≡ [])) ⊎ (w.status ≡ negsuc 0)

abbrev pub IsFront : Bytes → Option WriteAll → Type 0
IsFront buffer none = Unit
IsFront buffer (some w) = Wrote buffer w

also_sent-IsFront :
    (n : ℕ) (buffer : Bytes) (inner : Option WriteAll)
    → IsFront (drop n buffer) inner
    → IsFront buffer (also_sent (take n buffer) inner)
also_sent-IsFront n buffer none h = tt
also_sent-IsFront n buffer (some w) h = record {
  left = h.left;
  front =
      sym (take-drop n buffer)
      ∙ ap (λ s. take n buffer ++ s) h.front
      ∙ sym (append_assoc (take n buffer) w.sent h.left);
  whole = h.whole;
}

-- However the calls go, with failures, interruptions and short writes, what `write_all` has written
-- when it ends is the front of the buffer, and the whole buffer where it returns 1.
write_all-IsFront :
    (buffer : Bytes) (calls : List WriteCall) → IsFront buffer (write_all buffer calls)
unfolding write_all
write_all-IsFront [] calls = record { left = []; front = refl; whole = inl (refl, refl) }
write_all-IsFront (c ∷ cs) [] = tt
write_all-IsFront (c ∷ cs) (accepted n ∷ calls) =
    also_sent-IsFront n (c ∷ cs) (write_all (drop n (c ∷ cs)) calls)
      (write_all-IsFront (drop n (c ∷ cs)) calls)
write_all-IsFront (c ∷ cs) (write_interrupted ∷ calls) = write_all-IsFront (c ∷ cs) calls
write_all-IsFront (c ∷ cs) (write_failed ∷ calls) = record {
  left = c ∷ cs;
  front = refl;
  whole = inr refl;
}

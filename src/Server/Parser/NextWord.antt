-- ===== src/Server/Parser/NextWord.antt =====
-- How many bytes get_next leaves.
use so.Common.{
  ℕ, zero, suc, ◌≤◌, ◌<◌, if◌then◌else◌, Bool, true, false, [], ◌∷◌, Bytes, codes, drop, take,
  arith, ◌≢◌, refl, length,
}
use so.Input.{cleanup}
use so.Input.Laws.{length-cleanup-le}
use so.Server.Parser.{
  Command, eoc, cmd_write, get_next, dispatch, write_word, whole_word, word_and_space,
  wait_or_write, end_of_word, cmd_empty, refuse, cmd_wait, cmd_read, cmd_delete, cmd_show,
  cmd_backup, cmd_help,
}

length-drop-le : (n : ℕ) (s : Bytes) → length (drop n s) ≤ length s
length-drop-le zero s = omega arith
length-drop-le (suc n) [] = omega arith
length-drop-le (suc n) (c ∷ s) = omega (arith, length-drop-le n s)

cleanup-drop-le : (n : ℕ) (s : Bytes) → length (cleanup (drop n s)) ≤ length s
cleanup-drop-le n s = omega (arith, length-cleanup-le (drop n s), length-drop-le n s)

-- The command is one of a line, and at most `n` bytes are left.
record Within (n : ℕ) (r : Command × Bytes) : Type 0 where
  le : length r.1 ≤ n
  ne : r.0 ≢ eoc

if-Within :
    {n : ℕ} (b : Bool) {x y : Command × Bytes}
    → Within n x
    → Within n y
    → Within n (if b then x else y)
if-Within true h k = h
if-Within false h k = k

refuse-Within : {n : ℕ} (s : Bytes) → length s ≤ n → Within n (refuse s)
refuse-Within s h = record { le = omega (arith, length-cleanup-le s); ne = λ e. cc }

module _ {n : ℕ} (cmd : Command) (ne : cmd ≢ eoc) where
  pair-Within : (s : Bytes) → length s ≤ n → Within n (cmd, s)
  pair-Within s h = record { le = h; ne = ne }

  end_of_word-Within : (s : Bytes) → length s ≤ n → Within n (end_of_word cmd s)
  end_of_word-Within [] h = pair-Within [] h
  end_of_word-Within (c ∷ s) h =
      if-Within _ (pair-Within s (omega arith)) (refuse-Within s (omega arith))

write_word-Within : {n : ℕ} (buf s : Bytes) → length s ≤ n → Within n (write_word buf s)
write_word-Within buf [] h = refuse-Within [] h
write_word-Within buf (c ∷ s) h =
    if-Within _ (pair-Within cmd_write (λ e. cc) s (omega arith)) (refuse-Within s (omega arith))

module _ (s : Bytes) where
  wait_or_write-Within : Within (length s) (wait_or_write s)
  wait_or_write-Within =
      if-Within _ (pair-Within cmd_wait (λ e. cc) (drop 4 s) (length-drop-le 4 s))
        (write_word-Within (b'W' ∷ take 4 s) (drop 4 s) (length-drop-le 4 s))

  module _ (buf : Bytes) (n : ℕ) (word : Bytes) (cmd : Command) (ne : cmd ≢ eoc) where
    word_and_space-Within : Within (length s) (word_and_space buf n word cmd s)
    word_and_space-Within =
        if-Within _ (pair-Within cmd ne (drop n s) (length-drop-le n s))
          (refuse-Within (drop n s) (length-drop-le n s))

    whole_word-Within : Within (length s) (whole_word buf n word cmd s)
    whole_word-Within =
        if-Within _ (end_of_word-Within cmd ne (drop n s) (length-drop-le n s))
          (refuse-Within (drop n s) (length-drop-le n s))

dispatch-Within : (c : ℕ) (s : Bytes) → Within (length s) (dispatch c s)
unfolding dispatch
dispatch-Within c s = if-Within _ (wait_or_write-Within s) (
    if-Within _ (word_and_space-Within s (b'R' ∷ []) 4 (codes "READ ") cmd_read (λ e. cc)) (
      if-Within _ (word_and_space-Within s (b'D' ∷ []) 6 (codes "DELETE ") cmd_delete (λ e. cc)) (
        if-Within _ (whole_word-Within s (b'S' ∷ []) 3 (codes "SHOW") cmd_show (λ e. cc)) (
          if-Within _ (whole_word-Within s (b'B' ∷ []) 5 (codes "BACKUP") cmd_backup (λ e. cc)) (
            if-Within _ (whole_word-Within s (b'H' ∷ []) 3 (codes "HELP") cmd_help (λ e. cc)) (
              if-Within _ (pair-Within cmd_empty (λ e. cc) (cleanup s) (length-cleanup-le s)) (
                if-Within _ (pair-Within cmd_empty (λ e. cc) s (omega arith))
                  (refuse-Within s (omega arith)))))))))

-- Before the end of the input `get_next` takes at least one byte, and finds a command of a line.
pub get_next-lt : (s : Bytes) → s ≢ [] → ((get_next s).0 ≢ eoc) × (length (get_next s).1 < length s)
unfolding get_next
get_next-lt [] h = absurd (h refl)
get_next-lt (c ∷ s) h = let w = dispatch-Within c s in (w.ne, omega (arith, w.le))

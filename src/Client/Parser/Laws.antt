-- ===== src/Client/Parser/Laws.antt =====
-- The client's get_next and parse_list on the lines that the client takes.
use so.Common.{
  ℕ, ◌<◌, [], ◌∷◌, ◌++◌, Bytes, codes, strcmp, IsText, c_str-text, ◌≡◌, refl, length, ok, ◌>>=◌,
  pos, inl, inr,
}
use so.Input.Laws.{IsPlain, OneLine, cleanup-line, read_string-plain}
use so.Client.Parser.{
  Command, cmd_disconnect, cmd_subscribe, cmd_unsubscribe, cmd_delay, cmd_empty, cmd_invalid, eoc,
  get_next, parse_list,
}

abbrev pub word_of : Command → Bytes
word_of cmd_disconnect = codes "DISCONNECT\n"
word_of cmd_subscribe = codes "SUBSCRIBE "
word_of cmd_unsubscribe = codes "UNSUBSCRIBE "
word_of cmd_delay = codes "DELAY "
word_of cmd_empty = codes "\n"
word_of _ = []

abbrev pub IsWord : Command → Type 0
IsWord cmd_invalid = ⊥
IsWord eoc = ⊥
IsWord _ = Unit

-- Each command's word is recognised, whatever follows, and nothing behind it is consumed.
pub get_next-client_word :
    (cmd : Command) (rest : Bytes) → IsWord cmd → get_next (word_of cmd ++ rest) ≡ (cmd, rest)
unfolding get_next strcmp
get_next-client_word cmd_invalid rest h = absurd h
get_next-client_word eoc rest h = absurd h
get_next-client_word _ rest h = refl

-- One key in brackets at the end of a line is read back, where one key is asked for.
pub parse_list-one :
    (size : ℕ) (key rest : Bytes)
    → IsPlain key
    → IsText key
    → length key < size
    → parse_list 1 size (b'[' ∷ (key ++ b']' ∷ b'\n' ∷ rest)) ≡ ok (key ∷ [], rest)
unfolding parse_list
parse_list-one size key rest plain text short = rw (
  read_string-plain size key (b'\n' ∷ rest) b']' (pos 2) plain short (inr (inr (inl (refl, refl)))),
  ◌>>=◌,
  c_str-text key text,
)

-- A second key is refused with its line, where one key is asked for.
pub parse_list-two :
    (size : ℕ) (key line rest : Bytes)
    → IsPlain key
    → length key < size
    → OneLine line
    → parse_list 1 size (b'[' ∷ (key ++ b',' ∷ (line ++ b'\n' ∷ rest))) ≡ ok ([], rest)
unfolding parse_list
parse_list-two size key line rest plain short one = rw (
  read_string-plain size key (line ++ b'\n' ∷ rest) b',' (pos 0) plain short (inl (refl, refl)),
  ◌>>=◌,
  cleanup-line line rest one,
)

-- ===== src/Server/Parser/Words.antt =====
-- get_next on the lines that the README gives, and on every other first byte.
use so.Common.{
  ℕ, ◌==◌, ◌||◌, if◌then◌else◌, Bool, false, [], ◌∷◌, ◌++◌, Bytes, codes, arith, ◌≡◌, refl, ◌⊎◌,
  strcmp,
}
use so.Input.Laws.{OneLine, cleanup-line}
use so.Server.Parser.{
  Command, cmd_write, cmd_read, cmd_delete, cmd_show, cmd_wait, cmd_backup, cmd_help, cmd_empty,
  cmd_invalid, get_next,
}

-- The words that take an argument, with the space behind them.
abbrev pub word_of : Command → Bytes
word_of cmd_write = codes "WRITE "
word_of cmd_read = codes "READ "
word_of cmd_delete = codes "DELETE "
word_of cmd_wait = codes "WAIT "
word_of cmd_show = codes "SHOW\n"
word_of cmd_backup = codes "BACKUP\n"
word_of cmd_help = codes "HELP\n"
word_of cmd_empty = codes "\n"
word_of _ = []

abbrev pub IsWord : Command → Type 0
IsWord cmd_invalid = ⊥
IsWord Command.eoc = ⊥
IsWord _ = Unit

-- Each command's word is recognised, whatever follows, and nothing behind it is consumed.
pub get_next-word_of :
    (cmd : Command) (rest : Bytes) → IsWord cmd → get_next (word_of cmd ++ rest) ≡ (cmd, rest)
unfolding get_next strcmp
get_next-word_of cmd_invalid rest h = absurd h
get_next-word_of Command.eoc rest h = absurd h
get_next-word_of _ rest h = refl

-- The first bytes that a command, a comment or an empty line can have.
abbrev pub begins : ℕ → Bool
begins c =
    c == b'W'
    || c == b'R'
    || c == b'D'
    || c == b'S'
    || c == b'B'
    || c == b'H'
    || c == b'#'
    || c == b'\n'

-- A comment is skipped to the end of its line, and any other unknown line is refused and skipped.
pub get_next-line :
    (c : ℕ) (line rest : Bytes)
    → (c ≡ b'#') ⊎ (begins c ≡ false)
    → OneLine line
    → get_next (c ∷ (line ++ b'\n' ∷ rest)) ≡ ((if c == b'#' then cmd_empty else cmd_invalid), rest)
unfolding get_next
get_next-line c line rest h one = ground (arith, cleanup-line line rest one)

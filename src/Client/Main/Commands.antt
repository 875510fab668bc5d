-- ===== src/Client/Main/Commands.antt =====
-- A script of the client, from its lines to the messages, and the ways it can end.
use so.Common.{
  ℕ, zero, suc, ◌≤◌, ◌<◌, none, some, [], ◌∷◌, ◌++◌, Bytes, IsText, length, ok, ◌>>=◌, arith, ◌≡◌,
  refl,
}
use so.Input.Laws.{IsPlain}
use so.Client.Parser.{cmd_subscribe, cmd_unsubscribe, cmd_disconnect, get_next}
use so.Client.Parser.Laws.{word_of, get_next-client_word, parse_list-one}
use so.Client.Api.{kvs_subscribe, kvs_unsubscribe, kvs_disconnect}
use so.Client.Main.{sent, main_loop, after_effects}
use so.Server.Session.Requests.{subscribe_message-text}

-- A line with one key of at most 39 bytes sends one message, the operation code 3 or 4 and the key
-- with nothing behind it, and the client goes on with the next line.
pub main_loop-key :
    (fuel : ℕ) (answer key rest : Bytes)
    → IsPlain key
    → IsText key
    → length key < 40
    → (main_loop (suc fuel) answer (word_of cmd_subscribe ++ b'[' ∷ (key ++ b']' ∷ b'\n' ∷ rest))
        ≡ after_effects (sent (3 ∷ key) ∷ []) (main_loop fuel answer rest))
      × (main_loop
            (suc fuel)
            answer
            (word_of cmd_unsubscribe ++ b'[' ∷ (key ++ b']' ∷ b'\n' ∷ rest))
          ≡ after_effects (sent (4 ∷ key) ∷ []) (main_loop fuel answer rest))
unfolding main_loop kvs_subscribe kvs_unsubscribe
main_loop-key fuel answer key rest plain text short =
    let line = b'[' ∷ (key ++ b']' ∷ b'\n' ∷ rest) in
    let m = subscribe_message-text key text (omega arith) in
    (
      rw (
        get_next-client_word cmd_subscribe line tt,
        parse_list-one 40 key rest plain text short,
        ◌>>=◌,
        m.0,
      ),
      rw (
        get_next-client_word cmd_unsubscribe line tt,
        parse_list-one 40 key rest plain text short,
        ◌>>=◌,
        m.1,
      ),
    )

-- At the end of the input the client loops for ever.
pub main_loop-endless : (fuel : ℕ) (answer : Bytes) → main_loop fuel answer [] ≡ none
unfolding main_loop get_next
main_loop-endless zero answer = refl
main_loop-endless (suc fuel) answer = rw (main_loop-endless fuel answer)

-- DISCONNECT ends the program with the message `2`: with the return value 0 where the server has
-- closed the response pipe, and with 1 for an answer of two bytes whose second is not NUL.
pub main_loop-disconnect :
    (fuel : ℕ) (a b : ℕ) (rest : Bytes)
    → 1 ≤ b
    → (main_loop (suc fuel) [] (word_of cmd_disconnect ++ rest) ≡ some (ok (0, sent (2 ∷ []) ∷ [])))
      × (main_loop (suc fuel) (a ∷ b ∷ []) (word_of cmd_disconnect ++ rest)
          ≡ some (ok (1, sent (2 ∷ []) ∷ [])))
unfolding main_loop kvs_disconnect
main_loop-disconnect fuel a b rest some_code = (
  rw (get_next-client_word cmd_disconnect rest tt),
  rw (get_next-client_word cmd_disconnect rest tt) (ground arith),
)

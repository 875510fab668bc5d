-- ===== src/Tests/ClientRuns.antt =====
-- The client's parser and its loop.
use so.Common.{[], ◌∷◌, ◌++◌, arith, ◌≡◌, refl}
use so.Client.Parser.{cmd_subscribe, cmd_unsubscribe, cmd_disconnect}
use so.Client.Parser.Laws.{word_of}
use so.Client.Main.{sent, main_loop, after_effects}
use so.Client.Main.Commands.{main_loop-key}
use so.Tests.Samples.{key_a, key_a-IsText}

main_loop-key_example :
    (main_loop 2 []
        (word_of cmd_subscribe ++ b'[' ∷ (key_a ++ b']' ∷ b'\n' ∷ word_of cmd_disconnect))
      ≡ after_effects (sent (3 ∷ key_a) ∷ []) (main_loop 1 [] (word_of cmd_disconnect)))
    × (main_loop 2 []
          (word_of cmd_unsubscribe ++ b'[' ∷ (key_a ++ b']' ∷ b'\n' ∷ word_of cmd_disconnect))
        ≡ after_effects (sent (4 ∷ key_a) ∷ []) (main_loop 1 [] (word_of cmd_disconnect)))
main_loop-key_example =
    main_loop-key 1 [] key_a (word_of cmd_disconnect) (refl, (refl, tt)) key_a-IsText (omega arith)

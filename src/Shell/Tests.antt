-- ===== src/Shell/Tests.antt =====
-- A wrapper with a trap, a variable and arguments that need quotes.
use slapos_abilian_edge.Shell.{all_safe, escape, quote, Environ, sorted_items, wrapper_text}
use slapos_abilian_edge.Shell.Reader.{commands}
use slapos_abilian_edge.Shell.Laws.{literal}
use slapos_abilian_edge.Shell.Script.{argument_words}
use slapos_abilian_edge.Shell.Commands.{
  export_commands, trap_commands, wrapper_text-commands, all_word_chars,
}
use slapos_abilian_edge.Base.{◌≡◌, refl, Option, none, some, List, [], ◌∷◌, ◌++◌}
use slapos_abilian_edge.Base.Text.{Text, codes}

abbrev arguments : List Text
arguments =
    codes "/bin/echo"
    ∷ codes "it's $HOME"
    ∷ []
    ∷ codes "a long argument that is followed by"
    ∷ codes "another"
    ∷ []

abbrev environ : Environ
environ = (codes "PATH", codes "/bin:/usr/bin") ∷ (codes "GREETING", codes "hello world") ∷ []

abbrev signal : Option Text
signal = some (codes "USR1")

quote_runs : quote (codes "it's") ≡ codes "'it'\"'\"'s'"
unfolding quote all_safe escape
quote_runs = refl

wrapper_runs :
    wrapper_text (codes "a" ∷ codes "b c" ∷ []) [] none
    ≡ codes "#!/bin/sh -e\nexec a 'b c' \"$@\"\n"
unfolding wrapper_text all_safe escape
wrapper_runs = refl

wrapper_text-commands_example :
    commands (wrapper_text arguments environ signal)
    ≡ some (
        trap_commands signal
        ++ export_commands (sorted_items environ)
        ++ ((literal (codes "exec") ∷ argument_words arguments) ∷ []))
unfolding all_word_chars all_safe
wrapper_text-commands_example =
    wrapper_text-commands arguments environ signal (((λ h. cc), refl), (((λ h. cc), refl), tt))
      ((λ h. cc), refl)

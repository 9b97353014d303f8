-- ===== src/PublishEarly/Tests.antt =====
-- A key that is made up and published.
use slapos_abilian_edge.Base.{String, ◌≡◌, refl, ◌⊎◌, none, some, [], ◌∷◌, if◌then◌else◌}
use slapos_abilian_edge.Base.Dict.{lookup, insert, has, keys}
use slapos_abilian_edge.Base.Py.{ok}
use slapos_abilian_edge.Base.Str.{words, lines, strip_prefix}
use slapos_abilian_edge.PublishEarly.{Values, Buildout, Result, early, saved}
use slapos_abilian_edge.PublishEarly.Laws.{early-saved}

-- The section keeps the value that overrides its own.
abbrev buildout : Buildout
buildout = record {
  initialize = λ name override.
      some (if has "passwd" override then override else ("passwd", "made up") ∷ []);
}

abbrev options : Values
options = ("recipe", "slapos.cookbook:publish-early") ∷ ("-init", "key gen:passwd") ∷ []

abbrev result : Result
result = record {
  options =
      ("recipe", "slapos.cookbook:publish-early")
      ∷ ("-init", "key gen:passwd")
      ∷ ("key", "made up")
      ∷ [];
  sent = some (("key", "made up") ∷ []);
  names = "key" ∷ "key" ∷ [];
  volatile = "key" ∷ "-publish" ∷ [];
}

published : early buildout [] "key gen:passwd" options ≡ ok result
unfolding early lines words lookup insert strip_prefix keys
published = refl

-- The value that was published is kept and not sent again.
published_again :
    early buildout (("key", "first") ∷ []) "key gen:passwd" options
    ≡ ok (record {
      options =
          ("recipe", "slapos.cookbook:publish-early")
          ∷ ("-init", "key gen:passwd")
          ∷ ("key", "first")
          ∷ [];
      sent = none;
      names = "key" ∷ "key" ∷ [];
      volatile = "key" ∷ "-publish" ∷ [];
    })
unfolding early lines words lookup insert strip_prefix keys
published_again = refl

early-saved_example :
    ((k : String)
      → (lookup k (saved result.volatile result.options) ≡ none)
        ⊎ (lookup k (saved result.volatile result.options) ≡ lookup k options))
    × ((d : Values) (k v : String)
        → result.sent ≡ some d
        → lookup k d ≡ some v
        → lookup k result.options ≡ some v)
early-saved_example = early-saved buildout [] "key gen:passwd" options result published

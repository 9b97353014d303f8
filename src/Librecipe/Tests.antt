-- ===== src/Librecipe/Tests.antt =====
-- A codec of texts.
use slapos_abilian_edge.Librecipe.{Codec, loaded, wrap, unwrap}
use slapos_abilian_edge.Base.{◌≡◌, refl, ◌∷◌, drop}
use slapos_abilian_edge.Base.Dict.{lookup}
use slapos_abilian_edge.Base.Py.{ok}
use slapos_abilian_edge.Base.Text.{Text, codes}

abbrev codec : Codec Text
codec = record { dumps = λ t. b'"' ∷ t; loads = λ t. ok (drop 1 t) }

wrapped : unwrap codec (wrap codec (codes "on")) ≡ ok (loaded (codes "on"))
unfolding unwrap wrap lookup
wrapped = refl

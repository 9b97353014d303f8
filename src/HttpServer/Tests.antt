-- ===== src/HttpServer/Tests.antt =====
-- A POST to a path that leads up, to one below the directory, and to a read-only server.
use slapos_abilian_edge.HttpServer.{
  abspath, make_directories, append, respond, Errors, Form, do_post, issubpathof, address, inet,
}
use slapos_abilian_edge.HttpServer.Laws.{Allowed, do_post-Allowed}
use slapos_abilian_edge.Base.{◌≡◌, refl, false, none, some, [], ◌∷◌}
use slapos_abilian_edge.Base.Py.{user_error, ok, raised}
use slapos_abilian_edge.Base.Text.{codes, pos}

abbrev no_errors : Errors
no_errors = record { makedirs = λ _. 17; write = λ _. 0 }

abbrev form : Form
form = record { content = some (codes "x"); path = some "a/../b//c"; clear = none }

abbrev upward : Form
upward = record { content = some (codes "x"); path = some "../up"; clear = some (codes "1") }

do_post_example : Allowed "/srv/www" no_errors false (do_post "/srv/www" no_errors false form)
do_post_example = do_post-Allowed "/srv/www" no_errors false form

-- Without the field `clear` the content is appended.
appended :
    do_post "/srv/www" no_errors false form
    ≡ ok (
        make_directories ("srv" ∷ "www" ∷ "b" ∷ [])
        ∷ append ("srv" ∷ "www" ∷ "b" ∷ "c" ∷ []) (codes "x")
        ∷ respond 200
        ∷ [])
unfolding do_post
appended = refl

refused : do_post "/srv/www" no_errors false upward ≡ ok (respond 403 ∷ [])
unfolding do_post
refused = refl

-- A file below the directory whose name begins with two dots is refused too.
dotted : issubpathof (abspath "/srv/www/..x") (abspath "/srv/www") ≡ false
unfolding issubpathof abspath
dotted = refl

two_addresses :
    address (("host", "::1") ∷ ("port", "80") ∷ ("socketpath", "/s") ∷ []) ≡ raised user_error
unfolding address
two_addresses = refl

one_address : address (("host", "::1") ∷ ("port", "80") ∷ []) ≡ ok (inet "::1" (pos 80))
unfolding address
one_address = refl

-- ===== src/Request/Edge.antt =====
-- The rest of slapos/recipe/request.py: JSONCodec, whose parameters are one JSON text, and
-- RequestEdge, which makes a request for each country.
use slapos_abilian_edge.Base.{String, ◌<>◌, ◌≡◌, refl, sym, ap, ◌∙◌, ◌↔◌, Option, none, some, List}
use slapos_abilian_edge.Base.{[], ◌∷◌, All}
use slapos_abilian_edge.Base.Dict.{Dict, insert}
use slapos_abilian_edge.Base.Py.{Exc, key_error, not_found, Outcome, ok, raised, bind, bind-eq-ok}
use slapos_abilian_edge.Base.Py.{ok_injective}
use slapos_abilian_edge.Base.Str.{str_split, strip_prefix}
use slapos_abilian_edge.Request.{Options, Instance, Master, Recipe, option, init, install, look}

-- `JSONCodec._filterForStorage`, where `dumps` is `json.dumps`
unfoldable pub json_filter_for_storage : (Dict String → String) → Dict String → Dict String
json_filter_for_storage dumps parameters = ("_", dumps parameters) ∷ []

-- `JSONCodec._getReturnParameterDict`, where `loads` is `json.loads`
unfoldable pub json_return_parameter_dict :
    (String → Outcome (Dict String)) → Instance → Outcome (Dict String)
json_return_parameter_dict loads i = elim (i.get_connection_parameter "_") [
  | ok text ↦ loads text
  | raised not_found ↦ ok []
  | raised e ↦ raised e
]

-- The options of the request for a country.
unfoldable pub local_options : Options → String → String → Options
local_options original name country =
    insert "sla-region" country (insert "name" (country <> ("-" <> name)) original)

-- The connection parameters of a request, under names with the country.
unfoldable pub bubble : String → Options → Options → Options
bubble country [] options = options
bubble country ((option, value) ∷ local) options =
    bubble country local (elim (strip_prefix "connection-" option) [
      | none ↦ options
      | some _ ↦ insert (option <> ("-" <> country)) value options
    ])

unfoldable pub edge_requests :
    Master
    → Options
    → String
    → Options
    → List String
    → Options
    → Dict Recipe
    → Outcome (Options × Dict Recipe)
unfolding local_options bubble
edge_requests M connection name original [] options requests = ok (options, requests)
edge_requests M connection name original (country ∷ countries) options requests =
    bind (init M connection (local_options original name country)) λ made.
      edge_requests M connection name original countries (bubble country made.1 options)
        (insert country made.0 requests)

-- `RequestEdge.__init__`
unfoldable pub edge_init : Master → Options → String → Options → Outcome (Options × Dict Recipe)
unfolding edge_requests
edge_init M connection name options =
    bind (option options "country-list")
      λ countries. edge_requests M connection name options (str_split b',' countries) options []

-- `RequestEdge.install`
unfoldable pub edge_install : Dict Recipe → Outcome (List String)
edge_install [] = ok []
edge_install ((country, request) ∷ requests) = bind (install request) λ _. edge_install requests

install_ok : (r : Recipe) (xs : List String) → install r ≡ ok xs → xs ≡ []
unfolding install
install_ok r xs h = raises r.request_exception h
  where
    named :
        (f : Option String)
        → (elim f as (λ _. Outcome (List String)) [
          | none ↦ ok []
          | some p ↦ bind (look r.instance_) (λ _. raised key_error)
        ])
          ≡ ok xs
        → xs ≡ []
    named none q = sym (ok_injective q)
    named (some p) q = let (s, e, f) = bind-eq-ok (look r.instance_) (λ _. raised key_error) q in cc

    raises :
        (x : Option Exc)
        → (elim x as (λ _. Outcome (List String)) [
          | some e ↦ raised e
          | none ↦ elim r.failed [
            | none ↦ ok []
            | some param ↦ bind (look r.instance_) (λ _. raised key_error)
          ]
        ])
          ≡ ok xs
        → xs ≡ []
    raises none q = named r.failed q
    raises (some e) q = cc

-- The requests for all countries succeed exactly when each of them does.
edge_install_lem :
    (requests : Dict Recipe)
    → (edge_install requests ≡ ok []) ↔ All (λ r. install r.1 ≡ ok []) requests
unfolding edge_install
edge_install_lem [] = (λ h. tt, λ h. refl)
edge_install_lem ((country, request) ∷ requests) =
    let (to, from) = edge_install_lem requests in
    (
      λ h.
          let (xs, e, f) = bind-eq-ok (install request) (λ _. edge_install requests) h in
          (e ∙ ap ok (install_ok request xs e), to f),
      λ h. rw h.0 (from h.1),
    )

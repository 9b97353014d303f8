-- ===== src/FreePort.antt =====
-- slapos/recipe/free_port.py: a port that nothing listens on.
mod Laws
mod Tests
use slapos_abilian_edge.Base.{ℕ, zero, suc, ◌+◌, ◌-◌, Bool, false, Option, none, some, List, []}
use slapos_abilian_edge.Base.{◌∷◌, ◌==◌, if◌then◌else◌}
use slapos_abilian_edge.Base.Py.{value_error, missing_option, missing_section, os_error, Outcome}
use slapos_abilian_edge.Base.Py.{ok, raised, bind}
use slapos_abilian_edge.Base.Text.{print, Text, codes, text_eq, ℤ, pos, negsuc, int, show}

pub data Family : Type 0 where
  inet inet6 : Family

-- What the recipe meets: buildout's file of installed parts, `netaddr` and the sockets.
pub record Net : Type 0 where
  -- `parser.get(name, 'port')` of the installed file, if the file is there
  pub installed_port : Option (Outcome Text)
  pub valid_ipv4 : Option Text → Bool
  pub valid_ipv6 : Option Text → Bool
  -- `sock.bind((ip, port))` on a socket of that family
  pub bind_socket : Family → Option Text → ℤ → Outcome (Unit {0})

pub record Options : Type 0 where
  pub minimum : Option Text
  pub maximum : Option Text
  pub ip : Option Text

unfoldable pub next : ℤ → ℤ
next (pos n) = pos (suc n)
next (negsuc zero) = pos zero
next (negsuc (suc n)) = negsuc n

-- `max(0, high - low)`
unfoldable pub distance : ℤ → ℤ → ℕ
distance (pos a) (pos b) = b - a
distance (pos a) (negsuc b) = 0
distance (negsuc a) (pos b) = suc (a + b)
distance (negsuc a) (negsuc b) = a - b

unfoldable pub count_up : ℕ → ℤ → List ℤ
count_up zero low = []
count_up (suc n) low = low ∷ count_up n (next low)

-- `range(low, high)`
unfoldable pub range : ℤ → ℤ → List ℤ
unfolding count_up distance next
range low high = count_up (distance low high) low

-- The first port that can be bound; 0 if there is none.
unfoldable pub get_free_port : (ℤ → Outcome (Unit {0})) → List ℤ → Outcome ℤ
get_free_port bind_port [] = ok (pos 0)
get_free_port bind_port (port ∷ ports) =
    let rest = get_free_port bind_port ports in
    elim (bind_port port) [ ok _ ↦ ok port | raised (os_error _) ↦ rest | raised e ↦ raised e ]

-- `int(options.get(key, default))`
unfoldable pub port_option : Option Text → ℕ → Outcome ℤ
port_option none default = ok (pos default)
port_option (some t) default = elim (int t) [ some n ↦ ok n | none ↦ raised value_error ]

-- The installed port, unless it is 0 or cannot be read.
unfoldable pub kept_port : Option (Outcome Text) → Outcome (Option Text)
kept_port none = raised missing_section
kept_port (some (ok port)) = ok (if text_eq port (codes "0") then none else some port)
kept_port (some (raised e)) = raised e

unfoldable pub same : ℤ → ℤ → Bool
same (pos a) (pos b) = a == b
same (pos a) (negsuc b) = false
same (negsuc a) (pos b) = false
same (negsuc a) (negsuc b) = a == b

-- The family of the address.
unfoldable pub family_of : Net → Option Text → Option Family
family_of N ip = if N.valid_ipv4 ip then some inet else if N.valid_ipv6 ip then some inet6 else none

unfoldable pub search_port : Net → Options → Outcome Text
unfolding port_option get_free_port range same print family_of count_up distance next
search_port N options = bind (port_option options.minimum 1024) λ minimum.
    bind (port_option options.maximum 49151) λ maximum.
      if same minimum maximum then ok (print minimum) else elim (family_of N options.ip) [
        | none ↦ ok (show 0)
        | some family ↦
            bind (get_free_port (N.bind_socket family options.ip) (range minimum maximum))
              λ port. ok (print port)
      ]

-- `__init__`: the value of the option `port`.
unfoldable pub init : Net → Options → Outcome Text
unfolding kept_port search_port
init N options = elim (kept_port N.installed_port) [
  | ok (some port) ↦ ok port
  | ok none ↦ search_port N options
  | raised (os_error _) ↦ search_port N options
  | raised missing_section ↦ search_port N options
  | raised missing_option ↦ search_port N options
  | raised e ↦ raised e
]

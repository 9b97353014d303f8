-- ===== src/FreePort/Tests.antt =====
-- A search for a port among a few.
use slapos_abilian_edge.Base.{◌≡◌, refl, ◌⊎◌, arith, leb, if◌then◌else◌}
use slapos_abilian_edge.Base.Py.{os_error, plain, Outcome, ok, raised}
use slapos_abilian_edge.Base.Text.{ℤ, pos, negsuc}
use slapos_abilian_edge.FreePort.{get_free_port, range}
use slapos_abilian_edge.FreePort.Laws.{Smallest, AllRefused, get_free_port-Smallest}

-- Ports 8000 and 8001 are in use.
abbrev bind_port : ℤ → Outcome (Unit {0})
bind_port (pos n) = if leb n 8001 then raised (os_error 98) else ok tt
bind_port (negsuc n) = raised (plain "OverflowError")

found : get_free_port bind_port (range (pos 8000) (pos 8004)) ≡ ok (pos 8002)
unfolding get_free_port range
found = refl

get_free_port-Smallest_example :
    Smallest bind_port 8000 8004 (pos 8002) ⊎ ((pos 8002 ≡ pos 0) × AllRefused bind_port 8000 8004)
get_free_port-Smallest_example =
    get_free_port-Smallest bind_port 8000 8004 (pos 8002) (omega arith) found

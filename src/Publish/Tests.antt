-- ===== src/Publish/Tests.antt =====
-- The failsafe publication at a concrete state.
use slapos_abilian_edge.Base.{◌≡◌, some, []}
use slapos_abilian_edge.Base.Py.{server_error, raised}
use slapos_abilian_edge.Base.Text.{codes}
use slapos_abilian_edge.Publish.{failsafe_set, failsafe_update, failsafe_update-retries}

failsafe_update_example :
    failsafe_update
      (some "error")
      (λ files. [])
      (failsafe_set (some "error") (codes "Traceback") (raised server_error) [])
    ≡ []
failsafe_update_example =
    failsafe_update-retries "error" (codes "Traceback") (raised server_error) (λ files. []) []

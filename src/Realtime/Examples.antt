-- ===== src/Realtime/Examples.antt =====
-- A hub for one connection, which was opened and closed.
use orvexa.Base.{◌∷◌, All, [], arith, refl}
use orvexa.Realtime.{
  closed, admit, Hub, new_hub, register, close, Run, next, admitted, stay, registered,
}
use orvexa.Realtime.Isolation.{IsSealed, Run-IsSealed}

abbrev opened_hub : Hub
opened_hub = record {
  max_total = 1;
  clients = record { socket = 4; tenant_id = 1; agent_id = 9; send = [] } ∷ [];
  total = 2;
  upgrading = 0;
  closings = 0;
}

abbrev closed_hub : Hub
closed_hub = record { max_total = 1; clients = []; total = 1; upgrading = 0; closings = 1 }

to_opened : Run (new_hub 1) opened_hub
unfolding new_hub admit register
to_opened = next (admitted refl) (next (registered 4 1 9 (omega arith)) stay)

to_closed : Run (new_hub 1) closed_hub
unfolding new_hub admit register close
to_closed =
    next (admitted refl) (next (registered 4 1 9 (omega arith)) (next (closed [] [] _ refl) stay))

Run-IsSealed_example : All IsSealed opened_hub.clients
Run-IsSealed_example = Run-IsSealed 1 opened_hub to_opened

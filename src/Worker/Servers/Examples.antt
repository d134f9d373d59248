-- ===== src/Worker/Servers/Examples.antt =====
-- A worker whose HTTP server cannot listen, and the theorem on its loop applied to it.
use terra_worker.Prelude.{◌+◌, true, false, ◌||◌, ◌⊎◌, [], ◌∷◌, ◌≡◌, refl, arith, length}
use terra_worker.Worker.Servers.{Main, main_loop, on_exit, http_exits, exited, Reach, here, next}
use terra_worker.Worker.Servers.Stops.{one_if, Reach-stops}

abbrev no_port : Main
no_port = record main_loop { http_ended = true; exit = "http" ∷ [] }

-- its message was taken
abbrev stopped : Main
stopped = on_exit no_port "http" []

Reach-stopped : Reach stopped
Reach-stopped = next (next here (http_exits refl (omega arith))) (exited "http" [] refl refl)

Reach-stops_example :
    ((stopped.returned ≡ false)
      × (length stopped.exit ≡ one_if stopped.grpc_ended + one_if stopped.http_ended))
    ⊎ ((stopped.returned ≡ true)
        × (stopped.cancelled ≡ true)
        × ((stopped.grpc_stopped || stopped.grpc_ended) ≡ true)
        × ((stopped.http_stopped || stopped.http_ended) ≡ true))
Reach-stops_example = Reach-stops stopped Reach-stopped

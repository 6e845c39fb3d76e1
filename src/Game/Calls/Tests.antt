-- ===== src/Game/Calls/Tests.antt =====
-- A call of the game in a kernel with one process.
use nju_oslab.Prelude.{◌≡◌, arith}
use nju_oslab.Kernel.Tests.{alone, quiet_env, quiet_devices, getpid_frame}
use nju_oslab.Game.Calls.Reach.{entered, answered}
use nju_oslab.Game.Calls.Handled.{sem_open, pushed, wrapper, handler_of, wrapper-handler_of}

wrapper-handler_of_example :
    wrapper quiet_env quiet_devices getpid_frame (sem_open 1 2) alone
    ≡ answered 0
        (handler_of quiet_env quiet_devices getpid_frame (sem_open 1 2))
        (entered (pushed getpid_frame (sem_open 1 2)) alone)
wrapper-handler_of_example =
    wrapper-handler_of quiet_env quiet_devices getpid_frame alone (omega arith) (sem_open 1 2)

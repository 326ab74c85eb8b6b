-- ===== src/Kernel/EventFd/Tests.antt =====
-- Runs of the event counter at concrete inputs.
use mushroom.Prelude.{[], ◌∷◌, arith}
use mushroom.Kernel.EventFd.{EventFd, write}
use mushroom.Kernel.EventFd.Counter.{Counts, write-Counts}

abbrev quiet : EventFd
quiet = record { counter = 0; notifications = 2 }

write-Counts_example :
    Counts quiet
      (3 ∷ 1 ∷ 0 ∷ 0 ∷ 0 ∷ 0 ∷ 0 ∷ 0 ∷ [])
      (write quiet (3 ∷ 1 ∷ 0 ∷ 0 ∷ 0 ∷ 0 ∷ 0 ∷ 0 ∷ []))
write-Counts_example = write-Counts quiet (3 ∷ 1 ∷ 0 ∷ 0 ∷ 0 ∷ 0 ∷ 0 ∷ 0 ∷ []) (omega arith)

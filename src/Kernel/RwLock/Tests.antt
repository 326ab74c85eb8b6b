-- ===== src/Kernel/RwLock/Tests.antt =====
-- Runs of the reader writer lock at concrete inputs.
use mushroom.Prelude.{◌+◌, ◌≡◌, ◌↔◌, ◌≤◌, ◌⊎◌, refl, false, arith}
use mushroom.Kernel.RwLock.{
  RwLock, read, write, idle, reading, writing, is_shared, access, new, after, step, Steps, start,
  next,
}
use mushroom.Kernel.RwLock.Counts.{readers, writers}
use mushroom.Kernel.RwLock.Exclusion.{limit, Steps-Exclusion, access-Steps}

-- The first of two processes writes, and the second has tried to read.
abbrev contended : RwLock
contended =
    after (after (new 2) 0 (access write idle (new 2).state)) 1
      (access read idle (after (new 2) 0 (access write idle (new 2).state)).state)

contended-Steps : Steps (new 2) contended
unfolding access new after
contended-Steps = next (next start (step write 0 idle refl)) (step read 1 idle refl)

Steps-Exclusion_example :
    ((writers contended.processes ≡ 0)
      × (contended.state ≡ readers contended.processes)
      × (contended.state ≤ limit))
    ⊎ ((writers contended.processes ≡ 1)
        × (readers contended.processes ≡ 0)
        × (is_shared contended.state ≡ false))
Steps-Exclusion_example = Steps-Exclusion 2 contended (omega arith) contended-Steps

access-Steps_example :
    (((access read idle contended.state).1 ≡ reading) ↔ (writers contended.processes ≡ 0))
    × (((access write idle contended.state).1 ≡ writing)
        ↔ (readers contended.processes + writers contended.processes ≡ 0))
access-Steps_example = access-Steps 2 contended (omega arith) contended-Steps

-- ===== src/Pipe/Tests.antt =====
-- The theorems about src/core/pipe.c at concrete inputs, and runs of its functions.
use robu_microkernel.Base.{◌≡◌, refl, true, false, List, [], ◌∷◌, ◌++◌, arith, set, replicate, All}
use robu_microkernel.Status.{Status}
use robu_microkernel.Pipe.Inv.{PoolIsValid, HasTids, run-boot-PoolIsValid}
use robu_microkernel.Pipe.Stream.{contents, at, InUse, all_accepted, all_delivered, run_conserves}
use robu_microkernel.Pipe.Transfer.{Opens}
use robu_microkernel.Pipe.Holders.{holds, holds-invalidate_tcb_death}
use robu_microkernel.Pipe.Handles.{Refused, create_all, close_last-Refused}
use robu_microkernel.Pipe.{
  Pipe, Pool, Call, creates, reads, writes, closes, forks, blank, boot, opened, step, run, read,
  write, close, drop_end, inherit_fork, invalidate_tcb_death, is_free,
}

-- Thread 5 has opened a pipe in slot 0.
abbrev lone : Pool
lone = set boot 0 (opened 5 blank)

-- The pipe holds two bytes, round the end of its ring.
abbrev round : Pipe
round = record (opened 5 blank) { head = 1023; count = 2; ring = 8 ∷ (replicate 1022 0 ++ 7 ∷ []) }

abbrev holding : Pool
holding = set boot 0 round

-- The only end that is left is thread 5's read end.
abbrev last_reader : Pool
last_reader = set boot 0 (record (opened 5 blank) { writers_mask = 0 })

abbrev traffic : List Call
traffic = writes 0 (1 ∷ 2 ∷ 3 ∷ []) ∷ forks 5 6 ∷ reads 0 2 ∷ closes 5 0 true ∷ reads 0 9 ∷ []

lone-PoolIsValid : PoolIsValid lone
lone-PoolIsValid = omega arith

holding-PoolIsValid : PoolIsValid holding
holding-PoolIsValid = omega arith

last_reader-PoolIsValid : PoolIsValid last_reader
last_reader-PoolIsValid = omega arith

traffic-HasTids : All HasTids traffic
traffic-HasTids = omega arith

traffic-InUse : InUse 0 lone traffic
unfolding step write read close inherit_fork is_free drop_end
traffic-InUse = (refl, (refl, (refl, (refl, (refl, tt)))))

lone-Opens : Opens lone 0 0
unfolding is_free
lone-Opens = record { slot = refl; in_pool = omega arith; current = refl; in_use = refl }

holding-Opens : Opens holding 0 0
unfolding is_free
holding-Opens = record { slot = refl; in_pool = omega arith; current = refl; in_use = refl }

last_reader-Opens : Opens last_reader 0 0
unfolding is_free
last_reader-Opens = record { slot = refl; in_pool = omega arith; current = refl; in_use = refl }

-- What the readers of `traffic` get, in order.
delivered_test : all_delivered 0 lone traffic ≡ 1 ∷ 2 ∷ 3 ∷ []
unfolding step read write close inherit_fork is_free drop_end
delivered_test = refl

run-boot-PoolIsValid_example : PoolIsValid (run boot (creates 5 ∷ traffic))
run-boot-PoolIsValid_example = run-boot-PoolIsValid (creates 5 ∷ traffic) (omega arith)

run_conserves_example :
    contents (at lone 0) ++ all_accepted 0 lone traffic
    ≡ all_delivered 0 lone traffic ++ contents (at (run lone traffic) 0)
run_conserves_example = run_conserves 0 traffic lone lone-PoolIsValid traffic-HasTids traffic-InUse

holds-invalidate_tcb_death_example : holds (at (invalidate_tcb_death lone 5) 0) true 5 ≡ 0
holds-invalidate_tcb_death_example =
    holds-invalidate_tcb_death lone 0 5 5 true lone-PoolIsValid (omega arith) (omega arith)
      (omega arith)

close_last-Refused_example :
    ((close last_reader 5 0 false).0 ≡ Status.ok)
    × Refused (create_all (close last_reader 5 0 false).1 (6 ∷ 7 ∷ [])) 0
unfolding is_free drop_end
close_last-Refused_example =
    close_last-Refused last_reader 0 0 5 false (6 ∷ 7 ∷ []) last_reader-PoolIsValid
      last_reader-Opens refl

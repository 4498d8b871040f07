-- ===== src/Status.antt =====
-- The results of the system calls: the IPC_ERR_* codes of include/robu/ipc.h.
use mathlib.Core.Bool.{Bool, true, false}

-- IPC_ERR_NONE is `ok`; the others are negative codes.
pub data Status : Type 0 where
  ok not_found timeout canceled no_cap would_block no_mem exists no_space invalid blocked
        not_supported :
      Status

-- `rc == IPC_ERR_NONE`
abbrev pub is_ok : Status → Bool
is_ok Status.ok = true
is_ok _ = false

-- ===== src/Ipc/Rendezvous.antt =====
-- Sending to a thread that waits for the message.
use robu_microkernel.Sched.Types.{Sched}

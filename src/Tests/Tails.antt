-- ===== src/Tests/Tails.antt =====
-- launcher/mac/main.go: a log that grows between the two calls of a tick.
use exasol_local_vm.Prelude.{codes, ◌≡◌, length, refl, true, arith}
use exasol_local_vm.Start.Tail.{
  tick, Logging, logged, ticked, opened_log, Logs, here, next, IsCopied, Logs-IsCopied,
}

tailed : (s : Logging) × Logs (opened_log (codes "a")) s × (s.tail.shown ≡ codes "ab")
unfolding tick
tailed = (_, next (next here (logged (codes "b"))) (ticked true (codes "c") 2 (omega arith)), refl)

Logs-IsCopied_example :
    IsCopied tailed.0.log tailed.0.tail
    × ((tick true tailed.0.log tailed.0.log (length tailed.0.log) tailed.0.tail).shown
        ≡ tailed.0.log)
Logs-IsCopied_example = Logs-IsCopied (codes "a") tailed.0 tailed.1

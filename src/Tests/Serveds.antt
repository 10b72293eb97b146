-- ===== src/Tests/Serveds.antt =====
-- launcher/mac/main.go: a start and its daemon, from the command line to the machine.
use mathlib.Core.Path.{subst}
use exasol_local_vm.Prelude.{
  codes, text_eq, ◌≡◌, ◌≢◌, refl, sym, ◌∙◌, ap, [], ◌∷◌, some, false, pos, arith,
}
use exasol_local_vm.Std.Strings.{join}
use exasol_local_vm.Std.Strconv.{atoi, itoa, parse_uint}
use exasol_local_vm.Forward.Spec.{string, encode_forward_spec}
use exasol_local_vm.Forward.StateFile.{missing}
use exasol_local_vm.Cli.Main.{dispatch, dispatch_daemon, command, daemon}
use exasol_local_vm.Start.{state_file, daemon_args}
use exasol_local_vm.VmDaemon.{launched_process, Runs}
use exasol_local_vm.Start.Served.{IsServing, start_cmd-IsServing}
use exasol_local_vm.Tests.Lifecycles.{spec}
use exasol_local_vm.Tests.Boots.{working_os, working_vz, before}
use exasol_local_vm.Tests.Starts.{
  run_start, run_start-files, run_start-launched, launched_args, succeeds, crashed, host_calls,
  nobody,
}
use exasol_local_vm.Tests.Parents.{start_line, starts, file_there}
use exasol_local_vm.Tests.VmDaemons.{serving}

daemon_line :
    dispatch false (launched_args (spec ∷ []))
    ≡ command (daemon (codes "4") (codes "8192") (codes "sql:8563:0"))
unfolding dispatch dispatch_daemon daemon_args text_eq string encode_forward_spec join itoa
daemon_line = refl

-- The run of VmDaemons, from the files that `start` leaves.
from_start :
    Runs working_os working_vz
      (codes "4")
      (codes "8192")
      (codes "sql:8563:0")
      (launched_process before (run_start (spec ∷ []) state_file).1.files)
      serving.0
from_start =
    subst
      (λ f.
        Runs working_os working_vz (codes "4") (codes "8192") (codes "sql:8563:0")
          (launched_process before f) serving.0)
      (sym (run_start-files (spec ∷ []) state_file)) serving.1

written : state_file ≡ state_file → serving.0.system.daemon.files.state_file ≢ missing
written e x = file_there e (ap (λ s. s.daemon.files.state_file) (sym serving.2) ∙ x)

start_cmd-IsServing_example :
    IsServing (run_start (spec ∷ []) state_file).1.files (spec ∷ []) 4 8192 serving.0
unfolding atoi parse_uint
start_cmd-IsServing_example =
    start_cmd-IsServing host_calls nobody false start_line (codes "4") (codes "8192") (pos 50)
      (spec ∷ []) crashed state_file (some []) starts 4 8192 refl (omega arith) refl (omega arith)
      working_os working_vz before false (launched_args (spec ∷ [])) (codes "4") (codes "8192")
      (codes "sql:8563:0") serving.0 (run_start-launched (spec ∷ [])) daemon_line from_start written
      (succeeds (spec ∷ []))

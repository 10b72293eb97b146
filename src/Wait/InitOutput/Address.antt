-- ===== src/Wait/InitOutput/Address.antt =====
-- An address that the daemon accepts from the guest is an IP address.
use mathlib.Core.Path.{subst}
use exasol_local_vm.Prelude.{
  ℕ, Text, Option, none, some, ◌≡◌, ok, err, Option-cases, inl, inr, is_nil, Bool-cases, zero, suc,
  ltb, if_cases,
}
use exasol_local_vm.Std.Strings.{trim_space}
use exasol_local_vm.Std.Net.{Ip, parse_ip}
use exasol_local_vm.Wait.{Sleep}
use exasol_local_vm.Wait.InitOutput.{
  InitOutput, Initialised, Console, Found, absent, overlapping, between, check_output, read_console,
  settle, init_loop, half_second, wait_for_init_output, find_output,
}

-- An address that was accepted is one.
abbrev HasIp : Initialised → Type 0
HasIp none = Unit
HasIp (some (err e)) = Unit
HasIp (some (ok o)) = (ip : Ip) × (parse_ip o.ip ≡ some ip)

check_output-HasIp : (o : Option InitOutput) → HasIp (some (check_output o))
unfolding check_output
check_output-HasIp none = tt
check_output-HasIp (some o) = elim (Bool-cases (is_nil o.ip)) [
  | inl e ↦ rw e tt
  | inr e ↦ elim (Option-cases (parse_ip o.ip)) [
    | inl n ↦ rw (e, n) tt
    | inr (ip, s) ↦ rw (e, s) (ip, s)
  ]
]

settle-HasIp :
    (decode : Text → Option InitOutput) (f : Found) (later : Initialised)
    → HasIp later
    → HasIp (settle decode f later)
unfolding settle
settle-HasIp decode absent later h = h
settle-HasIp decode overlapping later h = tt
settle-HasIp decode (between s) later h = check_output-HasIp (decode (trim_space s))

read_console-HasIp :
    (decode : Text → Option InitOutput) (c : Option Text) (later : Initialised)
    → HasIp later
    → HasIp (read_console decode c later)
unfolding read_console
read_console-HasIp decode none later h = h
read_console-HasIp decode (some content) later h = settle-HasIp decode (find_output content) later h

init_loop-HasIp :
    (decode : Text → Option InitOutput) (console : Console) (sleep : Sleep) (deadline fuel now : ℕ)
    → HasIp (init_loop decode console sleep deadline fuel now)
unfolding init_loop
init_loop-HasIp decode console sleep deadline zero now = tt
init_loop-HasIp decode console sleep deadline (suc fuel) now =
    let h = init_loop-HasIp decode console sleep deadline fuel (sleep now half_second) in
    if_cases HasIp (ltb now deadline) (λ _. read_console-HasIp decode (console now) _ h) (λ _. tt)

pub wait_for_init_output-HasIp :
    (decode : Text → Option InitOutput) (console : Console) (sleep : Sleep) (seconds now : ℕ)
    (o : InitOutput)
    → wait_for_init_output decode console sleep seconds now ≡ some (ok o)
    → (ip : Ip) × (parse_ip o.ip ≡ some ip)
unfolding wait_for_init_output
wait_for_init_output-HasIp decode console sleep seconds now o e =
    subst HasIp e (init_loop-HasIp decode console sleep _ _ now)

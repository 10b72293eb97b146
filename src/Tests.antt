-- ===== src/Tests.antt =====
-- Runs of the model on concrete inputs, and the theorems at inputs that meet their hypotheses.
mod Specs
mod Requests
mod Disks
mod Shells
mod Lifecycles
mod Sockets
mod Logs
mod Commands
mod Waits
mod Starts
mod Inits
mod Guests
mod Proxies
mod Parents
mod Boots
mod Probings
mod Clocks
mod VmDaemons
mod Serveds
mod Tails
mod Monitors
mod Reacheds

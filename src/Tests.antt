-- ===== src/Tests.antt =====
-- Runs of the code at concrete inputs, and each theorem's use at one where its conditions hold.
mod Devices
mod Kernel
mod Launch
mod Linux
mod LinuxStart
mod Options
mod Os
mod Setup
mod Tables

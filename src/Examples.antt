-- ===== src/Examples.antt =====
-- The theorems at concrete inputs.
mod Scene
mod Runs
mod Children
mod Data
mod Options
mod Stamps
mod Wrf
mod Namelist
mod Staging
mod Oifs
mod Disk

-- ===== src/Examples.antt =====
-- Runs of the model at concrete inputs, and the theorems at inputs that meet their hypotheses.
mod Log
mod Writer
mod Overlay
mod Value
mod Schema
mod Store
mod Acl
mod Cursor

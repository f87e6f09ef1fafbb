-- ===== src/Tests.antt =====
-- Concrete inputs at which the development runs: tests, and instances of its theorems.
mod Streams
mod Boxes
mod Shake
mod Core
mod Wrapped
mod Trust
mod Settled
mod Rpc
mod CApi
mod Conversed

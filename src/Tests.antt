-- ===== src/Tests.antt =====
-- The theorems at concrete inputs, and runs of the code.
mod Text
mod Mock
mod Cookie
mod Memchunk
mod Timegm
mod Base64
mod Load
mod Scenario
mod Session

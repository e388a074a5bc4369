-- ===== src/Load.antt =====
-- The load generator: variables of a scenario, the choice of a scenario, the requests of a scenario one
-- after the other, the counters of a client, texts with variables, and what h2load.cc adds up and hands
-- out.
pub mod Variable
pub mod Schedule
pub mod Request
pub mod Client
pub mod Session
pub mod Totals
pub mod Template
pub mod Distribution

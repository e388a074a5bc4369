-- ===== src/Tests/Memchunk.antt =====
-- The queues of chunks, with chunks of four bytes.
use h2loadrunner.Base.{◌≡◌, refl, List, [], ◌∷◌, ◌++◌, ok, arith, length, take, drop, ◌-◌}
use h2loadrunner.Text.{codes}
use h2loadrunner.Memchunk.{Memchunks}
use h2loadrunner.Memchunk.Queue.{contents, IsQueue}
use h2loadrunner.Memchunk.Refines.{
  Operation, appends, appends_char, removes, drains, run, byte_run, run-byte_run,
}
use h2loadrunner.Memchunk.Buffer.{drain_reset, write, wleft, Fits, write-drain_reset}

-- A queue of two chunks: the first is used up to its third byte and full.
abbrev example_queue : Memchunks
example_queue = record {
  pool = record { pool = 2; freelist = []; poolsize = 8; freelistsize = 0 };
  chain = record { pos = 2; bytes = codes "ab" } ∷ record { pos = 0; bytes = codes "c" } ∷ [];
  len = 3;
}

example_queue-IsQueue : IsQueue 4 example_queue
example_queue-IsQueue = record {
  chunks = (
    record { holds = omega arith; fits = omega arith },
    (record { holds = omega arith; fits = omega arith }, tt),
  );
  counted = refl;
  bounded = omega arith;
}

abbrev example_operations : List Operation
example_operations =
    appends (codes "defgh")
    ∷ appends_char b'i'
    ∷ removes 5
    ∷ drains 2
    ∷ appends (codes "j")
    ∷ removes 9
    ∷ []

run-byte_run_example :
    (m' : Memchunks) × (run 4 example_operations example_queue
      ≡ ok ((byte_run example_operations (contents example_queue.chain)).0, m'))
    × (contents m'.chain ≡ (byte_run example_operations (contents example_queue.chain)).1)
    × IsQueue 4 m'
run-byte_run_example =
    run-byte_run 4 (omega arith) example_operations example_queue example_queue-IsQueue
      (omega arith)

write-drain_reset_example :
    (let c' = (drain_reset 1 (record { pos = 2; bytes = codes "ab" })).1 in
      (wleft 4 c' ≡ 4 - (length (codes "ab") - 1))
      × ((write 4 (codes "xyzw") c').1.bytes
          ≡ drop 1 (codes "ab") ++ take (4 - (length (codes "ab") - 1)) (codes "xyzw"))
      × Fits 4 (write 4 (codes "xyzw") c').1)
write-drain_reset_example =
    write-drain_reset 4 1 (codes "xyzw") (record { pos = 2; bytes = codes "ab" }) (omega arith)

-- ===== src/Random/Tests.antt =====
-- A generator with the carry of the source and equal entries.
use os_fall.Base.{arith}
use os_fall.Random.{Generator, rand}
use os_fall.Random.Carry.{WellFormed, Steps, rand_lem}

abbrev started : Generator
started = record { state = λ i. 0x9e3779b9; carry = 362436; index = 4095 }

started-WellFormed : WellFormed started
started-WellFormed = record {
  words = λ i. omega arith;
  carry_word = omega arith;
  index_bound = omega arith;
}

rand_lem_example : Steps started (rand started).0 (rand started).1
rand_lem_example = rand_lem started started-WellFormed

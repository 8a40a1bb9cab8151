-- ===== src/Examples.antt =====
-- Concrete inputs: an encoder and a digest that meet what is assumed of `viem`, tests by evaluation,
-- and the theorems at inputs that meet their hypotheses.
mod Encoder
mod Toy
mod Ring
mod Election
mod Trustees
mod Snarks
mod Jubs
mod Eligibles
mod Trees
mod Ballots
mod Batches
mod Ceremony
mod Voters
mod Tallies
mod Artifact
mod Sponsor

-- ===== src/Examples.antt =====
-- The theorems at concrete inputs: the domain's and those on keys, with the fixtures they share.
mod Fixtures
mod Codes
mod Journeys
mod Keys
mod Erasure
mod Codec
mod Repository
mod Derived
mod Postgres
mod Views
mod Transactions
mod Erasing
mod Requests

-- ===== src/Persistence.antt =====
-- ecn/persistence.py: the tables of the durable stores, with what their SQL statements do. A table is
-- the list of its rows in the order of their row ids. Connections and files are left out.
pub mod Usage
pub mod Periods
pub mod Transactions
pub mod Json
pub mod EventJson
pub mod Events
pub mod Keys
pub mod Reopened
pub mod Schema
mod Tests

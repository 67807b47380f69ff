-- ===== src/Repository.antt =====
-- src/pyscripts/repository.py over the tables of src/pyscripts/models.py.
-- A method is a transaction: it reads the database and returns its value and the new database, or
-- raises, and then `session.begin()` of the caller discards what it wrote. Rows are locked while a
-- transaction runs (`with_for_update`, the advisory lock), so transactions are taken one at a time.
pub mod Rows
pub mod Manifest
pub mod Routes
pub mod Services
pub mod Revisions
pub mod Contracts
pub mod Invocations
pub mod Invariant
pub mod Profiles
pub mod Transactions
pub mod Tests

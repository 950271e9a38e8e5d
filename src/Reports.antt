-- ===== src/Reports.antt =====
-- The report that an analysis produces, and its validation: backend/app/schemas/report.py.
pub mod Schema
pub mod References
pub mod Report
pub mod Evidence
pub mod Attribution
pub mod Backed
pub mod Justified

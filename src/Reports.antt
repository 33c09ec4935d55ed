-- ===== src/Reports.antt =====
-- The report writers of custom-load-generator/load_sender.py: what is counted in memory, and when it is
-- appended to a CSV file. A second is its number of seconds since 0001-01-01T00:00 UTC. The source keys
-- its counters by the second's ISO text, which has a fixed width, so texts and numbers sort alike. A file
-- is the list of its rows below the header.
pub mod Statistics
pub mod Requests
pub mod Incidents
mod Tests

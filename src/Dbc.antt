-- ===== src/Dbc.antt =====
-- The DBC file parser: src/domain/DBCFileParser.cpp.
pub mod Line
pub mod Values
pub mod File
pub mod Print
pub mod SignalRoundTrip
pub mod Messages
pub mod Result

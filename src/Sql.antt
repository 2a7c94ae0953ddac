-- ===== src/Sql.antt =====
-- The parser of SQL statements (sql_parser): its tokeniser, and a parser by recursive descent for each
-- kind of statement.
pub mod Tokeniser
pub mod Parser
mod Tests

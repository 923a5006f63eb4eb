-- ===== src/Cql.antt =====
-- server/src/cql: the query language over contexts. Ast has the parsed queries, Indexes the secondary
-- indexes that the server keeps in memory, Executor what a query finds, Parser how tokens become a
-- query, Search the two together.
pub mod Order
pub mod Ast
pub mod Metadata
pub mod Indexes
pub mod Executor
pub mod Lexer
pub mod Parser
pub mod Search

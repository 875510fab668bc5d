-- ===== src/Stages.antt =====
-- SO-Parte1: the programs that came before the server, each with its own copy of the table.
pub mod Table
pub mod First
pub mod Second
pub mod Third

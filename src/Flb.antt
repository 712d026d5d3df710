-- ===== src/Flb.antt =====
-- pkg/sink/flbconfig: the lexer and the parser of the fluent-bit configuration format.
pub mod Utf8
pub mod Lex
pub mod Parse
pub mod Document

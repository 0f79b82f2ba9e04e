-- ===== src/Compiler.antt =====
-- src/compiler: from LPC source to bytecode.
pub mod Lexer
pub mod Ast
pub mod Parser
pub mod FrontEnd

-- ===== src/Compiler/Parser/Total.antt =====
-- src/compiler/Parser.cpp: each function ends, with fuel above the tokens ahead.
pub mod Lists
pub mod Lambdas
pub mod Brackets
pub mod Expressions
pub mod Tries
pub mod Statements
pub mod Declarations

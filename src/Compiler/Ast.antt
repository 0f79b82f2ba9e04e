-- ===== src/Compiler/Ast.antt =====
-- include/amlp/compiler/Ast.hpp: the syntax trees. A class is a constructor with the class's members
-- in their order; a null pointer is `null`, and a vector of trees is `Asts`.
use Prim.Native.Nat.{ℕ}
use mathlib.Core.Bool.{Bool}
use mathlib.Core.List.{List, [], ◌∷◌}
use amlp.Base.{Bytes}
use amlp.Base.Int.{ℤ}

pub data BinOp : Type 0 where
  eq neq lt lte gt gte add or and sub mul div modulo bit_and bit_or bit_xor shl shr : BinOp

pub data UnaryOp : Type 0 where
  not neg bit_not : UnaryOp

pub data IncDecOp : Type 0 where
  inc dec : IncDecOp

pub record Param : Type 0 where
  pub type : Bytes
  pub name : Bytes
  pub is_array : Bool

-- A `double` is kept as the text that `std::stod` reads.
mutual
  pub data Ast : Type 0 where
    null : Ast
    string_literal : (value : Bytes) → Ast
    int_literal : (value : ℤ) → Ast
    float_literal : (text : Bytes) → Ast
    nil_literal : Ast
    symbol_literal : (name : Bytes) → Ast
    var_ref : (name : Bytes) → Ast
    binary : (op : BinOp) (left right : Ast) → Ast
    comma : (left right : Ast) → Ast
    unary : (op : UnaryOp) (operand : Ast) → Ast
    ternary : (condition then_branch else_branch : Ast) → Ast
    call :
        (callee : Bytes) (args : Asts) (arg_is_spread : List Bool) (force_efun parent_call : Bool)
        (parent_qualifier : Bytes)
        → Ast
    call_other : (target function : Ast) (args : Asts) (arg_is_spread : List Bool) → Ast
    sscanf : (target format : Ast) (var_names : List Bytes) (indexed_targets : Asts) → Ast
    catch : (guarded : Ast) → Ast
    closure_literal : (function_name : Bytes) (bound_args : Asts) (force_efun : Bool) → Ast
    inline_lambda : (body_exprs : Asts) (param_count : ℕ) (bound_value_exprs : Asts) → Ast
    lambda_param : (index : ℕ) (is_bound_value : Bool) → Ast
    expr_stmt : (expr : Ast) → Ast
    return_stmt : (expr : Ast) → Ast
    var_decl : (type : Bytes) (is_array : Bool) (name : Bytes) (initializer : Ast) → Ast
    assign_stmt : (name : Bytes) (value : Ast) → Ast
    assign_expr : (name : Bytes) (value : Ast) (is_compound : Bool) (compound_op : BinOp) → Ast
    inc_dec :
        (op : IncDecOp) (prefix : Bool) (name : Bytes) (index_target index_key map_column : Ast)
        → Ast
    array_literal : (elements : Asts) (element_is_spread : List Bool) → Ast
    mapping_literal : (entries : Entries) → Ast
    member_name_marker : (name : Bytes) → Ast
    type_cast : (class_name : Bytes) (inner : Ast) → Ast
    new_class : (class_name : Bytes) (field_inits : Inits) → Ast
    index_expr :
        (target index range_end : Ast) (index_from_end range_end_from_end : Bool) (map_column : Ast)
        → Ast
    index_assign_stmt :
        (target index value : Ast) (is_compound : Bool) (compound_op : BinOp) (map_column : Ast)
        → Ast
    index_assign_expr :
        (target index value : Ast) (is_compound : Bool) (compound_op : BinOp) (map_column : Ast)
        → Ast
    block : (statements : Asts) (is_real_scope : Bool) → Ast
    time_expression : (body : Ast) → Ast
    if_stmt : (condition then_branch else_branch : Ast) → Ast
    while_stmt : (condition body : Ast) → Ast
    do_while_stmt : (condition body : Ast) → Ast
    for_stmt : (init condition update body : Ast) → Ast
    break_stmt : Ast
    continue_stmt : Ast
    case_label : (value range_end : Ast) → Ast
    switch_stmt : (subject : Ast) (body : Asts) → Ast
    foreach_stmt :
        (var_name : Bytes) (declare_var has_value_var : Bool) (value_var_name : Bytes)
        (declare_value_var : Bool) (collection body : Ast)
        (var_class_type value_var_class_type : Bytes)
        → Ast
    anon_function : (params : List Param) (is_varargs : Bool) (body : Ast) → Ast

  pub data Asts : Type 0 where
    no_asts : Asts
    asts : Ast → Asts → Asts

  -- The entries of a mapping: a key, and the values of its columns.
  pub data Entries : Type 0 where
    no_entries : Entries
    entry : Ast → Asts → Entries → Entries

  -- The initialisers of a class's members, by name.
  pub data Inits : Type 0 where
    no_inits : Inits
    init : Bytes → Ast → Inits → Inits

pub record FunctionDecl : Type 0 where
  pub return_type : Bytes
  pub return_type_is_array : Bool
  pub name : Bytes
  pub params : List Param
  pub is_varargs : Bool
  pub body : Ast

pub record ObjectVarDecl : Type 0 where
  pub type : Bytes
  pub is_array : Bool
  pub name : Bytes
  pub is_private : Bool
  pub initializer : Ast

pub record ClassDecl : Type 0 where
  pub name : Bytes
  pub member_names : List Bytes

pub record Program : Type 0 where
  pub functions : List FunctionDecl
  pub object_vars : List ObjectVarDecl
  pub inherits : List Bytes
  pub classes : List ClassDecl

-- A `std::vector` of trees that the parser has filled.
abbrev pub to_asts : List Ast → Asts
to_asts [] = no_asts
to_asts (a ∷ l) = asts a (to_asts l)

abbrev pub to_entries : List (Ast × Asts) → Entries
to_entries [] = no_entries
to_entries ((key, values) ∷ l) = entry key values (to_entries l)

abbrev pub to_inits : List (Bytes × Ast) → Inits
to_inits [] = no_inits
to_inits ((name, value) ∷ l) = init name value (to_inits l)

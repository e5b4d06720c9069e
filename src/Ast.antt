-- ===== src/Ast.antt =====
-- src/ast.h: the nodes that the bytecode compiler reads. A NULL node is `null`, and a kind that it does
-- not know is `other`. `resolved_offset` is `none` where it is -1. A node's operator text is read
-- once: `Operator` has a constructor for each text that is compared with.
use fluxa_lang.Base.{ℕ, suc, List, Option}

-- The texts "+" to ">=".
pub data BinaryOp : Type 0 where
  add sub mul div mod' eq neq lt gt lte gte : BinaryOp

-- "!", "&&", "||", one of the others, or a text that is none of them.
pub data Operator : Type 0 where
  logic_not logic_and logic_or : Operator
  binary_op : BinaryOp → Operator
  unknown : Operator

mutual
  -- `ASTNode`
  pub data Node : Type 0 where
    null : Node
    int_lit float_lit bool_lit : ℕ → Node
    string_lit : List ℕ → Node
    identifier : Option ℕ → List ℕ → Node
    arr_access : Option ℕ → List ℕ → Node → Node
    binary : Operator → Node → Node → Node
    member_access : List ℕ → List ℕ → Node
    member_call : List ℕ → List ℕ → Nodes → Node
    func_call : List ℕ → Nodes → Node
    var_decl assign : Option ℕ → List ℕ → Node → Node
    member_assign : List ℕ → List ℕ → Node → Node
    arr_assign : Option ℕ → List ℕ → Node → Node → Node
    block_stmt func_decl : Nodes → Node
    if_stmt : Node → Node → Node → Node
    while_stmt : Node → Node → Node
    ret : Node → Node
    other : Node

  -- The children of a node.
  pub data Nodes : Type 0 where
    end : Nodes
    node : Node → Nodes → Nodes

-- `arg_count`
abbrev pub arg_count : Nodes → ℕ
arg_count end = 0
arg_count (node a as') = suc (arg_count as')

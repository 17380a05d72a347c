-- ===== src/Shell/Parse/Node.antt =====
-- The tree of src/components/breezybox/shell/sh_parse.h, and what a parsing function gives.
use breezybox.Prelude.{ℕ, Bool, true, false, Bytes, Option, List, [], ◌++◌}
use breezybox.Shell.Lex.Token.{Tok, TokType}

pub data RedirKind : Type 0 where
  r_in r_out r_append r_heredoc r_dup r_close : RedirKind

-- `sh_redir`
pub record Redir : Type 0 where
  pub kind : RedirKind
  pub fd : ℕ
  pub dupfd : ℕ
  pub word : Option Bytes
  pub heredoc_quoted : Bool

-- A `node` with its `negated`, its redirections and the fields of its kind. Lists grow at the end.
mutual
  pub data Node : Type 0 where
    node : Bool → List Redir → Shape → Node

  pub data Shape : Type 0 where
    list_of : Nodes → Shape
    and_or : TokType → Node → Node → Shape
    pipe : Nodes → Shape
    simple : List Bytes → List Bytes → Shape
    if_then : Clauses → Shape
    if_else : Clauses → Node → Shape
    while_do : Bool → Node → Node → Shape
    for_in : Bytes → List Bytes → Bool → Node → Shape
    case_of : Bytes → Cases → Shape
    group : Bool → Node → Shape
    funcdef : Bytes → Node → Shape

  pub data Nodes : Type 0 where
    no_nodes : Nodes
    push_child : Nodes → Node → Nodes

  pub data Clauses : Type 0 where
    no_clauses : Clauses
    push_clause : Clauses → Node → Node → Clauses

  pub data Cases : Type 0 where
    no_cases : Cases
    push_case : Cases → List Bytes → Node → Cases

-- `new_node`
abbrev pub new_node : Shape → Node
new_node shape = node false [] shape

abbrev pub with_negated : Bool → Node → Node
with_negated negated (node _ redirs shape) = node negated redirs shape

abbrev pub with_redirs : List Redir → Node → Node
with_redirs more (node negated redirs shape) = node negated (redirs ++ more) shape

-- `nchild == 0` of a list
abbrev pub has_no_child : Node → Bool
has_no_child (node _ _ (list_of no_nodes)) = true
has_no_child _ = false

-- A result with the tokens that are left, `err`, or that fuel ran out.
pub data Parsed (A : Type 0) : Type 0 where
  parsed : A → List Tok → Parsed A
  parse_error : Bytes → Parsed A
  no_fuel : Parsed A

module _ {A B : Type 0} where
  abbrev pub and_then : Parsed A → (A → List Tok → Parsed B) → Parsed B
  and_then (parsed a s) later = later a s
  and_then (parse_error m) later = parse_error m
  and_then no_fuel later = no_fuel

-- ===== src/Parser/Module.antt =====
-- The nodes of a module and the module: src/parser/parts/module_node.c and module.c; and the functions
-- that call each other tied together, so many calls deep at most.
use hoblang_old.Base.{
  ℕ, zero, suc, Bool, true, false, List, [], ◌∷◌, ◌++◌, Option, none, some, if◌then◌else◌, Bytes,
}
use hoblang_old.Lexer.Token.{
  Token, TokenType, TokenValue, token_ident, token_as, token_comma, token_closing_figure_brace,
  token_import, token_str, token_semicolon, token_struct, token_from, token_use, token_multiply,
  token_opening_figure_brace, token_behaviour, token_const, token_var, token_final, token_type,
  token_assign, token_fun, token_extern, token_opening_circle_brace, token_closing_circle_brace,
  token_public, token_eoi,
}
use hoblang_old.Parser.Cursor.{
  TokenSource, Parsing, pure, refuse, out_of_fuel, ◌>>=◌, ◌>>◌, ident_of, parser_next,
  parser_next_is, parser_skip_next, expect_next,
}
use hoblang_old.Parser.Decls.{
  parse_func_decl, parse_ext_func_decl, parse_ext_var_decl, parse_ast_struct_def,
  parse_behaviour_decl,
}
use hoblang_old.Parser.Expr.Loop.{parse_expr_post}
use hoblang_old.Parser.Nodes.{
  AstFromUseListItem, AstModuleDecl, node_import, node_struct_def, node_from_use_all,
  node_from_use_list, node_behaviour_decl, node_use, node_val_decl, node_type_alias, node_func,
  node_external_func, node_external_var, AstModuleNode,
}
use hoblang_old.Parser.Parts.{Parts, ParseStopFunc}
use hoblang_old.Parser.Stmts.{parse_val_decl}
use hoblang_old.Parser.Stmts.Body.{parse_body_maybe_ola}
use hoblang_old.Parser.Syntax.{AstExpr, AstBody, AstPath}
use hoblang_old.Parser.Types.{parse_path, parse_type}

-- `token->str`, behind a test of the type.
abbrev str_of : Token → Bytes
str_of t = elim t.value [ TokenValue.str s ↦ s | _ ↦ [] ]

module _ {L : Type 0} ⦃S : TokenSource L⦄ where
  -- The functions at a depth of calls.
  unfoldable pub parts_at : ℕ → Parts L
  unfolding parse_expr_post parse_type parse_body_maybe_ola
  parts_at zero = record {
    expr = λ stop post_parse. out_of_fuel;
    type = out_of_fuel;
    body = λ one_line_allowed. out_of_fuel;
  }
  parts_at (suc n) = record {
    expr = parse_expr_post n (parts_at n);
    type = parse_type n (parts_at n);
    body = parse_body_maybe_ola n (parts_at n);
  }

  unfoldable pub parse_expr : ℕ → ParseStopFunc → Parsing L AstExpr
  unfolding parts_at
  parse_expr n stop = (parts_at n).expr stop true

  unfoldable pub parse_body : ℕ → Parsing L AstBody
  unfolding parts_at
  parse_body n = (parts_at n).body false

  unfoldable pub parse_body_ola : ℕ → Parsing L AstBody
  unfolding parts_at
  parse_body_ola n = (parts_at n).body true

  -- The `switch` behind an item of the list, given what the loop does next time.
  unfoldable pub behind_item :
      Parsing L (List AstFromUseListItem) → TokenType → Parsing L (List AstFromUseListItem)
  behind_item again token_comma = again
  behind_item again token_closing_figure_brace = pure []
  behind_item again _ = refuse

  -- The name behind an `as`.
  abbrev alias_if : Bool → Parsing L (Option Bytes)
  alias_if named =
      if named
      then (do alias ← expect_next token_ident; pure (some (ident_of alias)))
      else pure none

  unfoldable pub parse_from_use_list : ℕ → Parsing L (List AstFromUseListItem)
  unfolding behind_item
  parse_from_use_list zero = out_of_fuel
  parse_from_use_list (suc n) = do
    what ← expect_next token_ident
    named ← parser_next_is token_as
    alias ← alias_if named
    token ← parser_next
    more ← behind_item (parse_from_use_list n) token.type
    pure (record { what = ident_of what; alias = alias } ∷ more)

  abbrev import_node : Parsing L AstModuleDecl
  import_node = do
    path ← expect_next token_str
    expect_next token_as
    name ← expect_next token_ident
    expect_next token_semicolon
    pure (node_import (str_of path ++ (0 ∷ [])) (ident_of name))

  -- `from`, behind its `use`.
  abbrev from_use_node : ℕ → AstPath → TokenType → Parsing L AstModuleDecl
  from_use_node n path token_multiply = do
    expect_next token_semicolon
    pure (node_from_use_all path)
  from_use_node n path token_opening_figure_brace = do
    items ← parse_from_use_list n
    expect_next token_semicolon
    pure (node_from_use_list path items)
  from_use_node n path _ = refuse

  abbrev use_node : AstPath → TokenType → Parsing L AstModuleDecl
  use_node path token_semicolon = pure (node_use path none)
  use_node path token_as = do
    alias ← expect_next token_ident
    expect_next token_semicolon
    pure (node_use path (some (ident_of alias)))
  use_node path _ = refuse

  abbrev val_decl_node : ℕ → Parts L → Parsing L AstModuleDecl
  val_decl_node n parts = do
    parser_skip_next
    decl ← parse_val_decl n parts
    pure (node_val_decl decl)

  abbrev extern_node : ℕ → Parts L → Bytes → TokenType → Parsing L AstModuleDecl
  extern_node n parts name token_fun = do
    decl ← parse_ext_func_decl n parts name
    pure (node_external_func decl)
  extern_node n parts name token_var = do
    decl ← parse_ext_var_decl n parts name
    expect_next token_semicolon
    pure (node_external_var decl)
  extern_node n parts name _ = refuse

  -- The `switch` of `parse_module_node_decl`.
  unfoldable pub node_token : ℕ → Parts L → TokenType → Parsing L AstModuleDecl
  unfolding parse_from_use_list parse_path parse_type
  node_token n parts token_import = import_node
  node_token n parts token_struct = do
    def ← parse_ast_struct_def n parts
    pure (node_struct_def def)
  node_token n parts token_from = do
    path ← parse_path n parts
    expect_next token_use
    token ← parser_next
    from_use_node n path token.type
  node_token n parts token_behaviour = do
    decl ← parse_behaviour_decl n parts
    pure (node_behaviour_decl decl)
  node_token n parts token_use = do
    path ← parse_path n parts
    token ← parser_next
    use_node path token.type
  node_token n parts token_const = val_decl_node n parts
  node_token n parts token_var = val_decl_node n parts
  node_token n parts token_final = val_decl_node n parts
  node_token n parts token_type = do
    alias ← expect_next token_ident
    expect_next token_assign
    type ← parse_type n parts
    expect_next token_semicolon
    pure (node_type_alias (ident_of alias) type)
  node_token n parts token_fun = do decl ← parse_func_decl n parts; pure (node_func decl)
  node_token n parts token_extern = do
    expect_next token_opening_circle_brace
    name ← expect_next token_ident
    expect_next token_closing_circle_brace
    token ← parser_next
    extern_node n parts (ident_of name) token.type
  node_token n parts _ = refuse

  unfoldable pub parse_module_node_decl : ℕ → Parts L → Parsing L AstModuleDecl
  unfolding node_token
  parse_module_node_decl n parts = do token ← parser_next; node_token n parts token.type

  unfoldable pub parse_module_node : ℕ → Parts L → Parsing L AstModuleNode
  unfolding parse_module_node_decl
  parse_module_node n parts = do
    is_public ← parser_next_is token_public
    decl ← parse_module_node_decl n parts
    pure (record { is_public = is_public; decl = decl })

  -- The loop of `parse_module`.
  unfoldable pub module_nodes : ℕ → ℕ → Parts L → Parsing L (List AstModuleNode)
  unfolding parse_module_node
  module_nodes fuel zero parts = out_of_fuel
  module_nodes fuel (suc n) parts = do
    ended ← parser_next_is token_eoi
    if ended then pure [] else do
      node ← parse_module_node fuel parts
      more ← module_nodes fuel n parts
      pure (node ∷ more)

  unfoldable pub parse_module : ℕ → Parsing L (List AstModuleNode)
  unfolding module_nodes parts_at
  parse_module n = module_nodes n n (parts_at n)

-- ===== src/Parser/Decls.antt =====
-- Declarations: src/parser/parts/decls/, src/parser/parts/generic.c, and `parse_func_decl_info` of
-- decls/func_info.c.
use hoblang_old.Base.{ℕ, zero, suc, false, List, [], ◌∷◌, none, some, if◌then◌else◌, Bytes}
use hoblang_old.Lexer.Token.{
  TokenType, token_greater, token_ident, token_colon, token_comma, token_add, token_less,
  token_opening_circle_brace, token_closing_circle_brace, token_opening_figure_brace,
  token_closing_figure_brace, token_fun, token_public,
}
use hoblang_old.Parser.Cursor.{
  TokenSource, Parsing, pure, refuse, out_of_fuel, attempt, ◌>>=◌, ◌>>◌, ident_of, parser_next,
  parser_next_is, expect_next,
}
use hoblang_old.Parser.Nodes.{
  AstGenericParam, AstFuncInfo, AstFuncDecl, AstExtFuncDecl, AstExtVarDecl, AstStructMember,
  AstStructDef, AstBehaviourRule, AstDeclBehaviour,
}
use hoblang_old.Parser.Parts.{Parts}
use hoblang_old.Parser.Syntax.{AstPath}
use hoblang_old.Parser.Types.{parse_path, parse_type, parse_func_type_info}

module _ {L : Type 0} ⦃S : TokenSource L⦄ where
  -- The loop of `parser_continue_generic_rules`; a path may take `fuel` steps.
  unfoldable pub continue_generic_rules : ℕ → ℕ → Parts L → Parsing L (List AstPath)
  unfolding parse_path
  continue_generic_rules fuel zero parts = out_of_fuel
  continue_generic_rules fuel (suc n) parts = do
    path ← parse_path fuel parts
    more ← parser_next_is token_add
    if more
        then (do paths ← continue_generic_rules fuel n parts; pure (path ∷ paths))
        else pure (path ∷ [])

  -- The loop of `parse_generic`.
  unfoldable pub generic_loop : ℕ → ℕ → Parts L → Parsing L (List AstGenericParam)
  unfolding continue_generic_rules
  generic_loop fuel zero parts = out_of_fuel
  generic_loop fuel (suc n) parts = do
    empty ← parser_next_is token_greater
    if empty then pure [] else do
      name ← expect_next token_ident
      ruled ← parser_next_is token_colon
      rules ← (if ruled then continue_generic_rules fuel fuel parts else pure [])
      let param : AstGenericParam = record { name = ident_of name; behaviours = rules }
      closed ← parser_next_is token_greater
      if closed
          then pure (param ∷ [])
          else do expect_next token_comma; more ← generic_loop fuel n parts; pure (param ∷ more)

  unfoldable pub parse_generic : ℕ → Parts L → Parsing L (List AstGenericParam)
  unfolding generic_loop
  parse_generic n parts = generic_loop n n parts

  unfoldable pub parse_func_decl_info : ℕ → Parts L → Parsing L AstFuncInfo
  unfolding parse_type
  parse_func_decl_info n parts = do
    is_extension ← parser_next_is token_opening_circle_brace
    of ←
        (if is_extension
          then (do
            type ← parse_type n parts
            expect_next token_closing_circle_brace
            pure (some type))
          else pure none)
    name ← expect_next token_ident
    pure (record { name = ident_of name; ext_of = of })

  -- The answer of `parse_body` is not looked at.
  unfoldable pub parse_func_decl : ℕ → Parts L → Parsing L AstFuncDecl
  unfolding parse_func_decl_info parse_generic parse_func_type_info
  parse_func_decl n parts = do
    info ← parse_func_decl_info n parts
    generic ← parser_next_is token_less
    generics ←
        (if generic then (do params ← parse_generic n parts; pure (some params)) else pure none)
    type ← parse_func_type_info n parts
    body ← attempt (parts.body false)
    pure (record { info = info; generics = generics; type = type; body = body })

  unfoldable pub parse_ext_func_decl : ℕ → Parts L → Bytes → Parsing L AstExtFuncDecl
  unfolding parse_func_decl_info parse_func_type_info
  parse_ext_func_decl n parts name = do
    info ← parse_func_decl_info n parts
    type ← parse_func_type_info n parts
    pure (record { public_name = name; info = info; type = type })

  unfoldable pub parse_ext_var_decl : ℕ → Parts L → Bytes → Parsing L AstExtVarDecl
  unfolding parse_type
  parse_ext_var_decl n parts name = do
    ext_name ← expect_next token_ident
    expect_next token_colon
    type ← parse_type n parts
    pure (record { public_name = name; ext_name = ident_of ext_name; type = type })

  unfoldable pub parse_ast_struct_member : ℕ → Parts L → Parsing L AstStructMember
  unfolding parse_type
  parse_ast_struct_member n parts = do
    is_public ← parser_next_is token_public
    name ← expect_next token_ident
    expect_next token_colon
    type ← parse_type n parts
    pure (record { is_public = is_public; name = ident_of name; type = type })

  -- The `switch` behind a member, given what the loop does next time.
  unfoldable pub behind_member :
      Parsing L (List AstStructMember) → TokenType → Parsing L (List AstStructMember)
  behind_member again token_closing_figure_brace = pure []
  behind_member again token_comma = again
  behind_member again _ = refuse

  unfoldable pub struct_def_members : ℕ → ℕ → Parts L → Parsing L (List AstStructMember)
  unfolding parse_ast_struct_member behind_member
  struct_def_members fuel zero parts = out_of_fuel
  struct_def_members fuel (suc n) parts = do
    member ← parse_ast_struct_member fuel parts
    token ← parser_next
    more ← behind_member (struct_def_members fuel n parts) token.type
    pure (member ∷ more)

  unfoldable pub parse_ast_struct_def : ℕ → Parts L → Parsing L AstStructDef
  unfolding struct_def_members
  parse_ast_struct_def n parts = do
    name ← expect_next token_ident
    expect_next token_opening_figure_brace
    members ← struct_def_members n n parts
    pure (record { name = ident_of name; members = members })

  -- The loop of `parse_behaviour_decl`.
  unfoldable pub behaviour_rules : ℕ → ℕ → Parts L → Parsing L (List AstBehaviourRule)
  unfolding parse_type parse_func_type_info
  behaviour_rules fuel zero parts = out_of_fuel
  behaviour_rules fuel (suc n) parts = do
    closed ← parser_next_is token_closing_figure_brace
    if closed then pure [] else do
      expect_next token_fun
      expect_next token_opening_circle_brace
      in_type ← parse_type fuel parts
      expect_next token_closing_circle_brace
      name ← expect_next token_ident
      info ← parse_func_type_info fuel parts
      more ← behaviour_rules fuel n parts
      pure (record { in_type = in_type; name = ident_of name; info = info } ∷ more)

  unfoldable pub parse_behaviour_decl : ℕ → Parts L → Parsing L AstDeclBehaviour
  unfolding behaviour_rules
  parse_behaviour_decl n parts = do
    name ← expect_next token_ident
    expect_next token_opening_figure_brace
    rules ← behaviour_rules n n parts
    pure (record { name = ident_of name; rules = rules })

-- ===== src/Lib.antt =====
-- Verification of the hoblang compiler: its lexer, its parser, and the core of its semantic
-- analysis.
--
-- The program reads a file into bytes; the lexer (src/lexer/) gives the parser (src/parser/) one token
-- after the other; the parser builds a syntax tree (src/ast/); the analysis (src/sema/) resolves names,
-- types and defers in it and writes its results into the tree, from which src/llvm/ generates code.
--
-- Core.Chars is include/core/chars.h, Core.Slice is slice_eq of src/core/slice/api.c, Core.Vec is
-- src/core/vec.c with the macros of include/core/vec.h; everywhere else a vector is a list.
-- Lexer.Token is include/lexer/token.h. Lexer.State is the state of include/lexer/impl.h with the
-- functions of src/lexer/api.c and src/lexer/private.c that move it; Lexer.Trivia is whitespace and
-- comments; Lexer.Parts is src/lexer/parts/; Lexer.Rules is the table of lexer_try_next and
-- lexer_next. The other files of Lexer prove.
-- Parser.Cursor is src/parser/private.c with the macros of include/parser/private.h, over an interface
-- TokenSource with the step and the token of the lexer; Parser.Source is the lexer as such a source, and
-- src/parser/api.c. Parser.Syntax and Parser.Nodes are include/ast/private/ and the constructors of
-- src/ast/. Parser.Binop and Parser.PushDown are the trees of binary operators of
-- src/parser/parts/expr.c, Parser.Expr its lists and Parser.Expr.Loop _parse_expr; Parser.Types is
-- parts/path.c, type.c, types/func.c and the types of decls/func_info.c; Parser.Stmts with Asm and Body
-- is val_decl.c, stmts/ and body.c; Parser.Decls is decls/ and generic.c; Parser.Module is
-- module_node.c and module.c. The functions that call each other are a record (Parser.Parts), which
-- Parser.Module ties together. Parser.Precedence, Parser.Ahead, Parser.Grammar and Parser.Failures prove.
-- Sema.Types is include/sema/type/private.h and src/sema/module/type/, with sema_types_equals in
-- Sema.Types.Equals. Sema.State is the state of a module; Sema.Scopes, Sema.Loops, Sema.Decls and
-- Sema.Defers are src/sema/module/scopes/, loop/, decls/ and private.c. Sema.Value is constants, values
-- and the target; Sema.Word is the arithmetic of int64_t. Sema.Analysis is the way in which the
-- functions of src/sema/module/parts/ answer; Sema.Expr is parts/expr.c, and its children parts/exprs/;
-- Sema.Statements is parts/stmts/, parts/body.c and parts/val_decl.c.
-- Sema.AstTypes is parts/type.c and func_info.c, on the trees of the parser. Sema.Behaviours is
-- src/sema/module/behaviour/api.c, and Sema.Behaviours.Tables its table.c; Sema.Paths and
-- Sema.Paths.Resolve are parts/path.c, over what Sema.Program keeps of the rest of the program.
-- Sema.Build is the way in which the passes over a module answer: Sema.Primitives declares the primitive
-- types, Sema.Nodes with its children is parts/module.c, decls/behaviour.c, generic.c and the expressions
-- that declare, and Sema.Project is src/sema/project/api.c, which reads a module with its imports.
-- Llvm.Tables is the walk through the table of a behaviour in src/llvm/parts/path.c; it takes the path and
-- the table that the analysis has left.
--
-- A pointer is an index into a memory, and a value of Option where it may be NULL. A failed assertion
-- and undefined behaviour are none. Loops over bytes recur on the bytes that are left. lexer_next, the
-- do-while over trivia, the equality of types and the walk over the bodies run on fuel. One more round
-- than there are bytes is enough for the first two, more than the sum of the ranks of two types is on
-- a heap without cycles, and the number of bodies around a place is for the last.
-- A function of the parser returns a result, NULL, the use of a null pointer, or no answer within the
-- fuel (Parser.Cursor.Outcome). One number bounds the depth of its calls and the rounds of each loop; for
-- an expression, two more than its tokens is enough.
-- The analysis of an expression or of a body inside another is a parameter: any analysis. So are the
-- operations on long double.
--
-- Not modelled: the text of errors and their locations, formatted output, freeing memory, the command
-- line, files, and code generation, which calls LLVM, but for the walk through tables. Directories, files
-- and the parser of a file are parameters of Sema.Project, and so are the analyses inside a node; imports
-- inside each other are bounded by a number, which no theorem takes to be enough.
pub mod Base
pub mod Core
pub mod Lexer
pub mod Parser
pub mod Sema
pub mod Llvm
pub mod Tests

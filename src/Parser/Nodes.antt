-- ===== src/Parser/Nodes.antt =====
-- The nodes of a module: include/ast/private/module_node.h, module.h, generic.h, func_info.h and
-- decls/behaviour.h. What the analysis adds later is left out.
use hoblang_old.Base.{Bool, List, Option, Bytes}
use hoblang_old.Parser.Syntax.{AstPath, AstType, AstFuncTypeInfo, AstBody, AstValDecl}

-- A parameter, and the behaviours that it has to have.
pub record AstGenericParam : Type 0 where
  pub name : Bytes
  pub behaviours : List AstPath

-- The name of a function, and the type that it extends.
pub record AstFuncInfo : Type 0 where
  pub name : Bytes
  pub ext_of : Option AstType

-- `body` is missing where it was refused; the code keeps what it has read of it.
pub record AstFuncDecl : Type 0 where
  pub info : AstFuncInfo
  pub generics : Option (List AstGenericParam)
  pub type : AstFuncTypeInfo
  pub body : Option AstBody

pub record AstExtFuncDecl : Type 0 where
  pub public_name : Bytes
  pub info : AstFuncInfo
  pub type : AstFuncTypeInfo

pub record AstExtVarDecl : Type 0 where
  pub public_name : Bytes
  pub ext_name : Bytes
  pub type : AstType

pub record AstStructMember : Type 0 where
  pub is_public : Bool
  pub name : Bytes
  pub type : AstType

pub record AstStructDef : Type 0 where
  pub name : Bytes
  pub members : List AstStructMember

-- A function that a type of the behaviour has.
pub record AstBehaviourRule : Type 0 where
  pub in_type : AstType
  pub name : Bytes
  pub info : AstFuncTypeInfo

pub record AstDeclBehaviour : Type 0 where
  pub name : Bytes
  pub rules : List AstBehaviourRule

pub record AstFromUseListItem : Type 0 where
  pub what : Bytes
  pub alias : Option Bytes

pub data AstModuleDecl : Type 0 where
  node_import : Bytes → Bytes → AstModuleDecl
  node_struct_def : AstStructDef → AstModuleDecl
  node_from_use_all : AstPath → AstModuleDecl
  node_from_use_list : AstPath → List AstFromUseListItem → AstModuleDecl
  node_behaviour_decl : AstDeclBehaviour → AstModuleDecl
  node_use : AstPath → Option Bytes → AstModuleDecl
  node_val_decl : AstValDecl → AstModuleDecl
  node_type_alias : Bytes → AstType → AstModuleDecl
  node_func : AstFuncDecl → AstModuleDecl
  node_external_func : AstExtFuncDecl → AstModuleDecl
  node_external_var : AstExtVarDecl → AstModuleDecl

pub record AstModuleNode : Type 0 where
  pub is_public : Bool
  pub decl : AstModuleDecl

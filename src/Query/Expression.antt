-- ===== src/Query/Expression.antt =====
-- The values of a row (include/AkatsukiDB/Table/ColumnDefinition.hpp) and the expressions of a query
-- (include/AkatsukiDB/Expressions/Expression.hpp). `D` is the type of a `double`; a pointer to a
-- part of an expression is never null, as the parser builds them.
use akatsuki_db.Base.{Bool, Option, Bytes, ℤ}

pub data Value (D : Type 0) : Type 0 where
  null : Value D
  int : ℤ → Value D
  double : D → Value D
  text : Bytes → Value D
  boolean : Bool → Value D

mutual
  pub data Expr (D : Type 0) : Type 0 where
    binary : Expr D → Bytes → Expr D → Expr D
    literal : Value D → Expr D
    column : Bytes → Option Bytes → Bool → Expr D
    unary : Expr D → Bytes → Expr D
    call : Bytes → Exprs D → Expr D
    is_null : Expr D → Bool → Expr D
    between : Expr D → Expr D → Expr D → Expr D
    among : Expr D → Exprs D → Expr D
    like : Expr D → Expr D → Expr D

  pub data Exprs (D : Type 0) : Type 0 where
    nil : Exprs D
    cons : Expr D → Exprs D → Exprs D

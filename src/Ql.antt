-- ===== src/Ql.antt =====
-- pkg/filter/ql: the filter language. `Token` are its tokens, `Value` the values of fields and
-- literals, `Numbers` and `Texts` the comparisons, and `Eval` the evaluation of an expression.
pub mod Token
pub mod Value
pub mod Numbers
pub mod Texts
pub mod Expr
pub mod Eval

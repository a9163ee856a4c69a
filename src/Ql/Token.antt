-- ===== src/Ql/Token.antt =====
-- pkg/filter/ql/token.go: the tokens of the filter language, with the precedence of the operators.
use Prim.Native.String.{String}
use fibratus.Prelude.{ℕ, Bool, true, false}

pub data Token : Type 0 where
  illegal ws eof : Token
  bound_var str badstr badesc ident decimal integer duration ip bad_ip true_ false_ : Token
  and or in_ iin not contains icontains istartswith startswith endswith iendswith : Token
  matches imatches fuzzy ifuzzy fuzzynorm ifuzzynorm intersects iintersects : Token
  eq ieq neq lt lte gt gte : Token
  lparen rparen comma dot pipe lbracket rbracket : Token
  seq max_span by as_ : Token

-- `tok > opBeg && tok < opEnd`: the tokens that the declaration puts between the two marks.
unfoldable pub is_operator : Token → Bool
is_operator Token.and = true
is_operator Token.or = true
is_operator Token.in_ = true
is_operator Token.iin = true
is_operator Token.not = true
is_operator Token.contains = true
is_operator Token.icontains = true
is_operator Token.istartswith = true
is_operator Token.startswith = true
is_operator Token.endswith = true
is_operator Token.iendswith = true
is_operator Token.matches = true
is_operator Token.imatches = true
is_operator Token.fuzzy = true
is_operator Token.ifuzzy = true
is_operator Token.fuzzynorm = true
is_operator Token.ifuzzynorm = true
is_operator Token.intersects = true
is_operator Token.iintersects = true
is_operator Token.eq = true
is_operator Token.ieq = true
is_operator Token.neq = true
is_operator Token.lt = true
is_operator Token.lte = true
is_operator Token.gt = true
is_operator Token.gte = true
is_operator _ = false

unfoldable pub precedence : Token → ℕ
precedence Token.or = 1
precedence Token.and = 2
precedence Token.not = 3
precedence Token.eq = 4
precedence Token.ieq = 4
precedence Token.neq = 4
precedence Token.lt = 4
precedence Token.lte = 4
precedence Token.gt = 4
precedence Token.gte = 4
precedence Token.in_ = 5
precedence Token.iin = 5
precedence Token.contains = 5
precedence Token.icontains = 5
precedence Token.startswith = 5
precedence Token.istartswith = 5
precedence Token.endswith = 5
precedence Token.iendswith = 5
precedence Token.matches = 5
precedence Token.imatches = 5
precedence Token.fuzzy = 5
precedence Token.ifuzzy = 5
precedence Token.fuzzynorm = 5
precedence Token.ifuzzynorm = 5
precedence Token.intersects = 5
precedence Token.iintersects = 5
precedence _ = 0

-- The text of a token in a message, and, in lower case, of a keyword.
unfoldable pub token_text : Token → String
token_text Token.illegal = "ILLEGAL"
token_text Token.eof = "EOF"
token_text Token.ws = "WS"
token_text Token.ident = "IDENT"
token_text Token.bound_var = "BOUNDVAR"
token_text Token.integer = "INTEGER"
token_text Token.decimal = "DECIMAL"
token_text Token.duration = "DURATION"
token_text Token.str = "STRING"
token_text Token.badstr = "BADSTRING"
token_text Token.badesc = "BADESCAPE"
token_text Token.ip = "IPADDRESS"
token_text Token.bad_ip = "BADIPADDRESS"
token_text Token.true_ = "TRUE"
token_text Token.false_ = "FALSE"
token_text Token.and = "AND"
token_text Token.or = "OR"
token_text Token.contains = "CONTAINS"
token_text Token.icontains = "ICONTAINS"
token_text Token.in_ = "IN"
token_text Token.iin = "IIN"
token_text Token.not = "NOT"
token_text Token.startswith = "STARTSWITH"
token_text Token.istartswith = "ISTARTSWITH"
token_text Token.endswith = "ENDSWITH"
token_text Token.iendswith = "IENDSWITH"
token_text Token.matches = "MATCHES"
token_text Token.imatches = "IMATCHES"
token_text Token.fuzzy = "FUZZY"
token_text Token.ifuzzy = "IFUZZY"
token_text Token.fuzzynorm = "FUZZYNORM"
token_text Token.ifuzzynorm = "IFUZZYNORM"
token_text Token.intersects = "INTERSECTS"
token_text Token.iintersects = "IINTERSECTS"
token_text Token.eq = "="
token_text Token.ieq = "~="
token_text Token.neq = "!="
token_text Token.lt = "<"
token_text Token.lte = "<="
token_text Token.gt = ">"
token_text Token.gte = ">="
token_text Token.lparen = "("
token_text Token.rparen = ")"
token_text Token.comma = ","
token_text Token.dot = "."
token_text Token.pipe = "|"
token_text Token.lbracket = "["
token_text Token.rbracket = "]"
token_text Token.seq = "SEQUENCE"
token_text Token.max_span = "MAXSPAN"
token_text Token.by = "BY"
token_text Token.as_ = "AS"

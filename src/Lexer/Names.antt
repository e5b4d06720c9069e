-- ===== src/Lexer/Names.antt =====
-- The names of the kinds of token, of src/lexer.c.
use fluxa_lang.Base.{List, ℕ, ◌≡◌, refl, Bool, true, false, codes, str_eq}
use fluxa_lang.Lexer.{
  TokenType, keywords, word_type, tok_int, tok_float, tok_string, tok_bool, tok_ident, tok_fn,
  tok_return, tok_nil, tok_if, tok_else, tok_while, tok_for, tok_import, tok_block, tok_typeof,
  tok_prst, tok_free, tok_danger, tok_err, tok_type_int, tok_type_float, tok_type_str,
  tok_type_bool, tok_type_char, tok_type_arr, tok_type_dyn, tok_lparen, tok_rparen, tok_lbrace,
  tok_rbrace, tok_lbracket, tok_rbracket, tok_comma, tok_dot, tok_eq, tok_neq, tok_eqeq, tok_lt,
  tok_gt, tok_lte, tok_gte, tok_plus, tok_minus, tok_star, tok_slash, tok_percent, tok_and, tok_or,
  tok_not, tok_eof, tok_error,
}

-- `token_type_name`
pub token_type_name : TokenType → List ℕ
token_type_name tok_int = codes "INT"
token_type_name tok_float = codes "FLOAT"
token_type_name tok_string = codes "STRING"
token_type_name tok_bool = codes "BOOL"
token_type_name tok_ident = codes "IDENT"
token_type_name tok_fn = codes "fn"
token_type_name tok_return = codes "return"
token_type_name tok_nil = codes "nil"
token_type_name tok_if = codes "if"
token_type_name tok_else = codes "else"
token_type_name tok_while = codes "while"
token_type_name tok_for = codes "for"
token_type_name tok_import = codes "import"
token_type_name tok_block = codes "Block"
token_type_name tok_typeof = codes "typeof"
token_type_name tok_prst = codes "prst"
token_type_name tok_free = codes "free"
token_type_name tok_danger = codes "danger"
token_type_name tok_err = codes "err"
token_type_name tok_type_int = codes "int"
token_type_name tok_type_float = codes "float"
token_type_name tok_type_str = codes "str"
token_type_name tok_type_bool = codes "bool"
token_type_name tok_type_char = codes "char"
token_type_name tok_type_arr = codes "arr"
token_type_name tok_type_dyn = codes "dyn"
token_type_name tok_lparen = codes "("
token_type_name tok_rparen = codes ")"
token_type_name tok_lbrace = codes "{"
token_type_name tok_rbrace = codes "}"
token_type_name tok_lbracket = codes "["
token_type_name tok_rbracket = codes "]"
token_type_name tok_comma = codes ","
token_type_name tok_dot = codes "."
token_type_name tok_eq = codes "="
token_type_name tok_neq = codes "!="
token_type_name tok_eqeq = codes "=="
token_type_name tok_lt = codes "<"
token_type_name tok_gt = codes ">"
token_type_name tok_lte = codes "<="
token_type_name tok_gte = codes ">="
token_type_name tok_plus = codes "+"
token_type_name tok_minus = codes "-"
token_type_name tok_star = codes "*"
token_type_name tok_slash = codes "/"
token_type_name tok_percent = codes "%"
token_type_name tok_and = codes "&&"
token_type_name tok_or = codes "||"
token_type_name tok_not = codes "!"
token_type_name tok_eof = codes "EOF"
token_type_name tok_error = codes "ERROR"

-- The kinds that a keyword of their own stands for.
abbrev pub is_keyword : TokenType → Bool
is_keyword tok_fn = true
is_keyword tok_return = true
is_keyword tok_nil = true
is_keyword tok_if = true
is_keyword tok_else = true
is_keyword tok_while = true
is_keyword tok_for = true
is_keyword tok_import = true
is_keyword tok_block = true
is_keyword tok_typeof = true
is_keyword tok_prst = true
is_keyword tok_free = true
is_keyword tok_danger = true
is_keyword tok_err = true
is_keyword tok_type_int = true
is_keyword tok_type_float = true
is_keyword tok_type_str = true
is_keyword tok_type_bool = true
is_keyword tok_type_char = true
is_keyword tok_type_arr = true
is_keyword tok_type_dyn = true
is_keyword t = false

-- The name of every kind of token that is a keyword, the Booleans apart, is the keyword itself: it is
-- read back as a token of that kind.
pub word_type-token_type_name :
    (t : TokenType) → is_keyword t ≡ true → word_type keywords (token_type_name t) ≡ t
unfolding word_type token_type_name str_eq
word_type-token_type_name tok_fn h = refl
word_type-token_type_name tok_return h = refl
word_type-token_type_name tok_nil h = refl
word_type-token_type_name tok_if h = refl
word_type-token_type_name tok_else h = refl
word_type-token_type_name tok_while h = refl
word_type-token_type_name tok_for h = refl
word_type-token_type_name tok_import h = refl
word_type-token_type_name tok_block h = refl
word_type-token_type_name tok_typeof h = refl
word_type-token_type_name tok_prst h = refl
word_type-token_type_name tok_free h = refl
word_type-token_type_name tok_danger h = refl
word_type-token_type_name tok_err h = refl
word_type-token_type_name tok_type_int h = refl
word_type-token_type_name tok_type_float h = refl
word_type-token_type_name tok_type_str h = refl
word_type-token_type_name tok_type_bool h = refl
word_type-token_type_name tok_type_char h = refl
word_type-token_type_name tok_type_arr h = refl
word_type-token_type_name tok_type_dyn h = refl
word_type-token_type_name t h = absurd (cc)

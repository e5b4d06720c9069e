-- ===== src/Lexer.antt =====
-- src/lexer.h and src/lexer.c: the scanner.
-- The source is its bytes up to the terminator, and a lexer is the bytes from its position on. At the
-- end `advance` reads the terminator, which is 0; the position may then be one behind it, where the
-- lexer finds the end as before. Classes of characters are those of the C locale.
pub mod Kinds
pub mod Progress
pub mod Words
pub mod Texts
pub mod Names
mod Tests
use fluxa_lang.Base.{
  ℕ, zero, suc, ◌+◌, List, [], ◌∷◌, ◌++◌, Option, none, some, Bool, true, false, ◌&&◌, ◌||◌, leb,
  ◌==◌, if◌then◌else◌, length, take, str_eq, codes,
}

-- `TokenType`
pub data TokenType : Type 0 where
  tok_int tok_float tok_string tok_bool tok_ident tok_fn tok_return : TokenType
  tok_nil tok_if tok_else tok_while tok_for tok_import tok_block : TokenType
  tok_typeof tok_prst tok_free tok_danger tok_err tok_type_int tok_type_float : TokenType
  tok_type_str tok_type_bool tok_type_char tok_type_arr tok_type_dyn tok_lparen tok_rparen :
      TokenType
  tok_lbrace tok_rbrace tok_lbracket tok_rbracket tok_comma tok_dot tok_eq : TokenType
  tok_neq tok_eqeq tok_lt tok_gt tok_lte tok_gte tok_plus : TokenType
  tok_minus tok_star tok_slash tok_percent tok_and tok_or tok_not : TokenType
  tok_eof tok_error : TokenType

-- `Token`
pub record Token : Type 0 where
  pub type : TokenType
  pub value : List ℕ
  pub line : ℕ

-- `Lexer`
pub record Lexer : Type 0 where
  pub rest : List ℕ
  pub line : ℕ

-- `KEYWORDS`
abbrev pub keywords : List (List ℕ × TokenType)
keywords =
    (codes "fn", tok_fn)
    ∷ (codes "return", tok_return)
    ∷ (codes "nil", tok_nil)
    ∷ (codes "if", tok_if)
    ∷ (codes "else", tok_else)
    ∷ (codes "while", tok_while)
    ∷ (codes "for", tok_for)
    ∷ (codes "import", tok_import)
    ∷ (codes "Block", tok_block)
    ∷ (codes "typeof", tok_typeof)
    ∷ (codes "prst", tok_prst)
    ∷ (codes "free", tok_free)
    ∷ (codes "danger", tok_danger)
    ∷ (codes "err", tok_err)
    ∷ (codes "true", tok_bool)
    ∷ (codes "false", tok_bool)
    ∷ (codes "int", tok_type_int)
    ∷ (codes "float", tok_type_float)
    ∷ (codes "str", tok_type_str)
    ∷ (codes "bool", tok_type_bool)
    ∷ (codes "char", tok_type_char)
    ∷ (codes "arr", tok_type_arr)
    ∷ (codes "dyn", tok_type_dyn)
    ∷ []

-- `peek`
abbrev pub peek : List ℕ → ℕ
peek [] = 0
peek (c ∷ r) = c

-- `if (c == '\n') l->line++`
abbrev pub after : ℕ → ℕ → ℕ
after c n = if c == 10 then n + 1 else n

-- `advance`, where the character is known or not wanted.
abbrev pub advance : Lexer → Lexer
advance l = elim l.rest [ [] ↦ l | c ∷ r ↦ record { rest = r; line = after c l.line } ]

abbrev pub is_space : ℕ → Bool
is_space c = c == 32 || (leb 9 c && leb c 13)

abbrev pub is_digit : ℕ → Bool
is_digit c = leb 48 c && leb c 57

abbrev pub is_alpha : ℕ → Bool
is_alpha c = (leb 65 c && leb c 90) || (leb 97 c && leb c 122)

-- A character that goes on with a name.
abbrev pub is_word : ℕ → Bool
is_word c = is_alpha c || is_digit c || c == 95

abbrev pub is_number : ℕ → Bool
is_number c = is_digit c || c == 46

-- `while (l->pos < l->len && test(peek(l))) advance(l);`
unfoldable pub skip_while : (ℕ → Bool) → List ℕ → ℕ → Lexer
skip_while test [] n = record { rest = []; line = n }
skip_while test (c ∷ r) n =
    if test c then skip_while test r (after c n) else record { rest = c ∷ r; line = n }

-- The same loop when it keeps the characters; the code cuts them to the size of its buffer.
unfoldable pub take_while : (ℕ → Bool) → List ℕ → List ℕ
take_while test [] = []
take_while test (c ∷ r) = if test c then c ∷ take_while test r else []

-- The `switch` on the character behind a backslash.
abbrev pub unescape : ℕ → ℕ
unescape c = if c == 110 then 10 else if c == 116 then 9 else c

-- The loop over the characters of a string: the characters, and the lexer at the quote or the end.
unfoldable pub string_chars : List ℕ → ℕ → List ℕ × Lexer
string_chars [] n = ([], record { rest = []; line = n })
string_chars (c ∷ []) n = elim (c == 34) [
  | true ↦ ([], record { rest = c ∷ []; line = n })
  | false ↦ ((if c == 92 then 0 else c) ∷ [], record { rest = []; line = after c n })
]
string_chars (c ∷ e ∷ r) n = elim (c == 34) [
  | true ↦ ([], record { rest = c ∷ e ∷ r; line = n })
  | false ↦ elim (c == 92) [
    | true ↦ let (s, l) = string_chars r (after e (after c n)) in (unescape e ∷ s, l)
    | false ↦ let (s, l) = string_chars (e ∷ r) (after c n) in (c ∷ s, l)
  ]
]

abbrev pub make_tok : TokenType → List ℕ → ℕ → Token
make_tok t v n = record { type = t; value = v; line = n }

-- The end of a string, from its characters.
abbrev pub end_string : ℕ → List ℕ × Lexer → Token × Lexer
end_string line (s, l) =
    if peek l.rest == 34
    then (make_tok tok_string (take 4095 s) line, advance l)
    else (make_tok tok_error (codes "unterminated string literal") line, l)

-- Whether a number has a point, in the buffer or behind it.
unfoldable pub has_point : List ℕ → Bool
has_point [] = false
has_point (c ∷ r) = c == 46 || has_point r

-- A number that begins with `c`.
abbrev pub scan_number : ℕ → ℕ → Lexer → Token × Lexer
scan_number c line l =
    let s = take_while is_number l.rest in
    (
      make_tok (if has_point s then tok_float else tok_int) (take 63 (c ∷ s)) line,
      skip_while is_number l.rest l.line,
    )

-- The search for a keyword.
unfoldable pub word_type : List (List ℕ × TokenType) → List ℕ → TokenType
word_type [] w = tok_ident
word_type ((k, t) ∷ ks) w = if str_eq w k then t else word_type ks w

-- A name or keyword that begins with `c`.
abbrev pub scan_word : ℕ → ℕ → Lexer → Token × Lexer
scan_word c line l =
    let w = take 255 (c ∷ take_while is_word l.rest) in
    (make_tok (word_type keywords w) w line, skip_while is_word l.rest l.line)

-- The operators of one character.
unfoldable pub operators : List (ℕ × TokenType)
operators =
    (40, tok_lparen)
    ∷ (41, tok_rparen)
    ∷ (123, tok_lbrace)
    ∷ (125, tok_rbrace)
    ∷ (91, tok_lbracket)
    ∷ (93, tok_rbracket)
    ∷ (44, tok_comma)
    ∷ (46, tok_dot)
    ∷ (61, tok_eq)
    ∷ (60, tok_lt)
    ∷ (62, tok_gt)
    ∷ (43, tok_plus)
    ∷ (45, tok_minus)
    ∷ (42, tok_star)
    ∷ (47, tok_slash)
    ∷ (37, tok_percent)
    ∷ []

unfoldable pub scan_operator : List (ℕ × TokenType) → ℕ → ℕ → Token
scan_operator [] c line = make_tok tok_error (codes "unexpected char '" ++ (c ∷ codes "'")) line
scan_operator ((o, t) ∷ os) c line =
    if c == o then make_tok t (c ∷ []) line else scan_operator os c line

-- The operators of two characters.
unfoldable pub pairs : List (ℕ × ℕ × TokenType)
pairs =
    (33, 61, tok_neq)
    ∷ (61, 61, tok_eqeq)
    ∷ (60, 61, tok_lte)
    ∷ (62, 61, tok_gte)
    ∷ (38, 38, tok_and)
    ∷ (124, 124, tok_or)
    ∷ []

-- An operator: those of two characters first, then `!`, then the others of one.
unfoldable pub scan_symbol : List (ℕ × ℕ × TokenType) → ℕ → ℕ → Lexer → Token × Lexer
scan_symbol [] c line l =
    if c == 33 then (make_tok tok_not (33 ∷ []) line, l) else (scan_operator operators c line, l)
scan_symbol ((a, b, t) ∷ ps) c line l =
    if c == a && peek l.rest == b
    then (make_tok t (a ∷ b ∷ []) line, advance l)
    else scan_symbol ps c line l

-- A token that begins with `c`, from the lexer behind it.
unfoldable pub scan : ℕ → ℕ → Lexer → Token × Lexer
scan c line l =
    if c == 34
    then end_string line (string_chars l.rest l.line)
    else if is_digit c
    then scan_number c line l
    else if is_alpha c || c == 95
    then scan_word c line l
    else scan_symbol pairs c line l

abbrev pub not_newline : ℕ → Bool
not_newline c = if c == 10 then false else true

-- `lexer_new`
abbrev pub lexer_new : List ℕ → Lexer
lexer_new source = record { rest = source; line = 1 }

-- `lexer_next` behind the space, with what it does on a restart.
abbrev pub dispatch : (Lexer → Option (Token × Lexer)) → Lexer → Option (Token × Lexer)
dispatch restart s = elim s.rest [
  | [] ↦ some (make_tok tok_eof [] s.line, s)
  | c ∷ r ↦ elim (c == 47 && peek r == 47) [
    | true ↦ restart (skip_while not_newline r (after c s.line))
    | false ↦ some (scan c s.line (record { rest = r; line = after c s.line }))
  ]
]

-- `lexer_next` on fuel for its restarts; `none` is fuel that ran out.
unfoldable pub next_on : ℕ → Lexer → Option (Token × Lexer)
next_on zero l = none
next_on (suc n) l = dispatch (next_on n) (skip_while is_space l.rest l.line)

-- `lexer_next`: a restart takes two characters at least.
unfoldable pub next : Lexer → Option (Token × Lexer)
next l = next_on (suc (length l.rest)) l

-- ===== src/Lexer/Tests.antt =====
-- The scanner on concrete sources.
use fluxa_lang.Base.{ℕ, ◌≡◌, refl, List, [], ◌∷◌, ◌++◌, some, codes, arith, if◌then◌else◌}
use fluxa_lang.Lexer.{
  next, make_tok, tok_string, tok_int, tok_float, has_point, keywords, word_type, lexer_new, scan,
  next_on, skip_while, scan_symbol, pairs, tok_neq, tok_while,
}
use fluxa_lang.Lexer.Progress.{ReadsTo, next-Reads}
use fluxa_lang.Lexer.Words.{next-word, next-number}
use fluxa_lang.Lexer.Names.{token_type_name, word_type-token_type_name}
use fluxa_lang.Lexer.Texts.{escaped, next-literal}

-- A comment, a line end, and a name.
abbrev source : List ℕ
source = codes "// x" ++ (10 ∷ codes "while a")

next-Reads_example : ReadsTo (lexer_new source) (next (lexer_new source))
next-Reads_example = next-Reads (lexer_new source)

next-word_example :
    next (record { rest = codes "while("; line = 3 })
    ≡ some (
      make_tok (word_type keywords (codes "while")) (codes "while") 3,
      record { rest = codes "("; line = 3 },
    )
next-word_example =
    next-word 119 (codes "hile") (codes "(") 3 refl (refl, (refl, (refl, (refl, tt)))) refl
      (omega arith)

next-number_example :
    next (record { rest = codes "3.5+"; line = 3 })
    ≡ some (
      make_tok (if has_point (codes ".5") then tok_float else tok_int) (codes "3.5") 3,
      record { rest = codes "+"; line = 3 },
    )
next-number_example =
    next-number 51 (codes ".5") (codes "+") 3 refl (refl, (refl, tt)) refl (omega arith)

-- A quote, a line end and a letter.
next-literal_example :
    next (record { rest = 34 ∷ (escaped (34 ∷ 10 ∷ 97 ∷ []) ++ 34 ∷ codes ";"); line = 1 })
    ≡ some (make_tok tok_string (34 ∷ 10 ∷ 97 ∷ []) 1, record { rest = codes ";"; line = 1 })
next-literal_example = next-literal (34 ∷ 10 ∷ 97 ∷ []) (codes ";") 1 (omega arith)

-- `!=` is one token.
not_equal :
    next (lexer_new (codes " != 1"))
    ≡ some (make_tok tok_neq (codes "!=") 1, record { rest = codes " 1"; line = 1 })
unfolding next next_on skip_while scan scan_symbol pairs
not_equal = refl

word_type-token_type_name_example : word_type keywords (token_type_name tok_while) ≡ tok_while
word_type-token_type_name_example = word_type-token_type_name tok_while refl

-- ===== src/Sql/Statement.antt =====
-- How tagsistant_real_query() of src/sql.c builds a statement: the three expressions RX1, RX2 and
-- RX3 with their replacements.
pub mod Quoting
use tagsistant.Base.{
  ℕ, Text, codes, Bool, true, false, ◌&&◌, ◌||◌, List, [], ◌∷◌, ◌++◌, ◌==◌, if◌then◌else◌,
}

abbrev pub quote : ℕ
quote = b'"'

-- A statement with its arguments in place of each `%s`: what stands in the format, and an argument.
pub data Piece : Type 0 where
  literal : Text → Piece
  argument : Text → Piece

-- RX1: the quotes of the format become `<><>`.
unfoldable pub mark_quotes : Text → Text
mark_quotes [] = []
mark_quotes (c ∷ s) =
    let rest = mark_quotes s in if c == quote || c == b'\'' then codes "<><>" ++ rest else c ∷ rest

-- g_strdup_vprintf() on the marked format.
unfoldable pub print_statement : List Piece → Text
unfolding mark_quotes
print_statement [] = []
print_statement (literal s ∷ rest) = mark_quotes s ++ print_statement rest
print_statement (argument s ∷ rest) = s ++ print_statement rest

-- RX2: a backslash before each double quote.
unfoldable pub escape_quotes : Text → Text
escape_quotes [] = []
escape_quotes (c ∷ s) =
    let rest = escape_quotes s in if c == quote then b'\\' ∷ (quote ∷ rest) else c ∷ rest

-- RX3: `<><>` becomes a double quote, from the left.
unfoldable pub restore_quotes : Text → Text
restore_quotes (a ∷ b ∷ c ∷ d ∷ s) =
    let found = quote ∷ restore_quotes s in
    let skip = a ∷ restore_quotes (b ∷ c ∷ d ∷ s) in
    if a == b'<' && b == b'>' && c == b'<' && d == b'>' then found else skip
restore_quotes s = s

-- The statement that is sent.
unfoldable pub statement : List Piece → Text
unfolding print_statement escape_quotes restore_quotes
statement pieces = restore_quotes (escape_quotes (print_statement pieces))

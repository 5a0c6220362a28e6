-- ===== src/Sql/Statement/Quoting.antt =====
-- Which quotes of a statement delimit its texts (tagsistant_real_query() of src/sql.c).
use tagsistant.Base.{
  ℕ, ◌≡◌, refl, ap, Text, codes, Bool, false, List, [], ◌∷◌, ◌++◌, ◌==◌, arith, if◌then◌else◌, any,
}
use tagsistant.Sql.Statement.{
  quote, Piece, literal, argument, mark_quotes, print_statement, escape_quotes, restore_quotes,
  statement,
}

-- What the programmer writes in a format, with both kinds of quotes as double ones.
abbrev plain_quotes : Text → Text
plain_quotes [] = []
plain_quotes (c ∷ s) = (if c == b'\'' then quote else c) ∷ plain_quotes s

-- An argument inside of a text: a backslash before each double quote.
unfoldable inside_text : Text → Text
inside_text [] = []
inside_text (c ∷ s) = (if c == quote then b'\\' ∷ quote ∷ [] else c ∷ []) ++ inside_text s

-- What a statement is meant to be: the argument is escaped, and the quotes of the format are not.
unfoldable pub intended : List Piece → Text
unfolding inside_text
intended [] = []
intended (literal s ∷ rest) = plain_quotes s ++ intended rest
intended (argument s ∷ rest) = inside_text s ++ intended rest

unfoldable pub has_mark : Piece → Bool
unfolding any
has_mark (literal s) = any (λ c. c == b'<') s
has_mark (argument s) = any (λ c. c == b'<') s

escape-eq-inside_text : (s : Text) → escape_quotes s ≡ inside_text s
unfolding escape_quotes inside_text
escape-eq-inside_text [] = refl
escape-eq-inside_text (c ∷ s) = ground (arith, escape-eq-inside_text s)

restore-cons :
    (c : ℕ) (s : Text) → (c == b'<') ≡ false → restore_quotes (c ∷ s) ≡ c ∷ restore_quotes s
unfolding restore_quotes
restore-cons c [] h = refl
restore-cons c (d ∷ []) h = refl
restore-cons c (d ∷ e ∷ []) h = refl
restore-cons c (d ∷ e ∷ f ∷ s) h = ground arith

escape-append : (s t : Text) → escape_quotes (s ++ t) ≡ escape_quotes s ++ escape_quotes t
unfolding escape_quotes
escape-append [] t = refl
escape-append (c ∷ s) t = ground (arith, escape-append s t)

restore-marked : (t : Text) → restore_quotes (codes "<><>" ++ t) ≡ quote ∷ restore_quotes t
unfolding restore_quotes
restore-marked t = refl

restore-mark :
    (s t : Text)
    → any (λ c. c == b'<') s ≡ false
    → restore_quotes (escape_quotes (mark_quotes s) ++ t) ≡ plain_quotes s ++ restore_quotes t
unfolding mark_quotes escape_quotes any
restore-mark [] t h = refl
restore-mark (c ∷ s) t h = ground (
  arith,
  restore-mark s t,
  restore-cons c (escape_quotes (mark_quotes s) ++ t),
  restore-marked (escape_quotes (mark_quotes s) ++ t),
)

restore-escape :
    (s t : Text)
    → any (λ c. c == b'<') s ≡ false
    → restore_quotes (escape_quotes s ++ t) ≡ escape_quotes s ++ restore_quotes t
unfolding escape_quotes any
restore-escape [] t h = refl
restore-escape (c ∷ s) t h = ground (
  arith,
  restore-escape s t,
  restore-cons c (escape_quotes s ++ t),
  restore-cons quote (escape_quotes s ++ t),
  restore-cons b'\\' (quote ∷ (escape_quotes s ++ t)),
)

-- If nothing in the format or in an argument is a `<`, the statement is the one that is meant: each
-- quote of the format delimits, and each double quote of an argument has a backslash before it.
pub statement-eq-intended :
    (pieces : List Piece) → any has_mark pieces ≡ false → statement pieces ≡ intended pieces
unfolding statement print_statement intended any has_mark
statement-eq-intended [] h = unfold escape_quotes restore_quotes in refl
statement-eq-intended (literal s ∷ rest) h = ground (
  arith,
  statement-eq-intended rest,
  escape-append (mark_quotes s) (print_statement rest),
  restore-mark s (escape_quotes (print_statement rest)),
)
statement-eq-intended (argument s ∷ rest) h =
    let plain : any (λ c. c == b'<') s ≡ false = ground arith in
    let later = statement-eq-intended rest (ground arith) in
    rw (escape-append s (print_statement rest)) (
      rw (restore-escape s (escape_quotes (print_statement rest)) plain)
        (rw (escape-eq-inside_text s) (ap (λ t. inside_text s ++ t) later)))

-- An argument that begins by `<><>` puts a bare double quote into the statement, which ends the text
-- that the format has opened before it; what follows in the argument stands outside of the text.
statement_of_mark :
    (s : Text) (rest : List Piece)
    → statement (argument (codes "<><>" ++ s) ∷ rest) ≡ quote ∷ statement (argument s ∷ rest)
unfolding statement print_statement escape_quotes restore_quotes
statement_of_mark s rest = refl

-- ===== src/Tests/Flb.antt =====
-- The lexer and the parser of pkg/sink/flbconfig at concrete inputs.
use observability.Base.{◌≡◌, refl, ◌≤◌, none, codes, length}
use observability.Flb.Lex.{lex_fuel, new_lexer, run}
use observability.Flb.Lex.Bounds.{new_lexer-IsValid, lexer_halts, lexer_bounds}
use observability.Flb.Lex.Cursor.{view, cursor_run, run-view}
use observability.Flb.Parse.{Parsed, ok, err, parse, return, initial}
use observability.Flb.Parse.Errors.{Reported, feed, parse_returns, parse_errors}
use observability.Flb.Document.{render, sections_of}
use observability.Flb.Document.Checks.{lines_check}
use observability.Flb.Document.Reading.{parse-render}
use observability.Tests.Data.{ascii, document}

parse-render_example :
    parse ascii (codes "f") (render document)
    ≡ ok (record { name = codes "f"; sections = sections_of document })
parse-render_example = parse-render ascii (codes "f") document (lines_check document refl)

lexer_halts_example : (run ascii (lex_fuel (codes "[a")) (new_lexer (codes "[a"))).state ≡ none
lexer_halts_example = lexer_halts ascii (codes "[a")

lexer_bounds_example :
    ((run ascii 3 (new_lexer (codes "[a"))).input ≡ codes "[a")
    × ((run ascii 3 (new_lexer (codes "[a"))).start ≤ (run ascii 3 (new_lexer (codes "[a"))).pos)
    × ((run ascii 3 (new_lexer (codes "[a"))).pos ≤ length (codes "[a"))
lexer_bounds_example = lexer_bounds ascii (codes "[a") 3

run-view_example :
    view (run ascii 3 (new_lexer (codes "[a"))) ≡ cursor_run ascii 3 (view (new_lexer (codes "[a")))
run-view_example = run-view ascii 3 (new_lexer (codes "[a")) (new_lexer-IsValid (codes "[a"))

-- A header without its bracket.
parse_unclosed : parse ascii (codes "f") (codes "[a\n") ≡ err (codes "missing right bracket")
unfolding parse observability.Flb.Utf8.decode observability.Flb.Lex.is_word
parse_unclosed = refl

parse_returns_example :
    (p : Parsed) × (feed
        (run ascii (lex_fuel (codes "[a\n")) (new_lexer (codes "[a\n"))).tokens
        (initial (codes "f"))
      ≡ return p)
    × (parse ascii (codes "f") (codes "[a\n") ≡ p)
parse_returns_example = parse_returns ascii (codes "f") (codes "[a\n")

parse_errors_example : Reported (codes "missing right bracket")
parse_errors_example =
    parse_errors ascii (codes "f") (codes "[a\n") (codes "missing right bracket") parse_unclosed

-- ===== src/Resh/Examples.antt =====
-- The theorem on soft/apps/resh/token.c at a concrete line, and lines that it leaves out.
use mnetsoft.Base.{◌≡◌, refl, [], ◌∷◌, arith}
use mnetsoft.Base.Text.{codes, skip_space}
use mnetsoft.Resh.{
  unquote, quotedtoken, put_before, simpletoken, after_simpletoken, tokens, fault, one_more,
  from_quote, tokenize, tokenizeq,
}
use mnetsoft.Resh.RoundTrip.{bare, in_quotes, tokenizeq-line}

tokenizeq-line_example :
    tokenizeq (codes "cat 'my file' -n ") 16
    ≡ tokens (codes "cat" ∷ codes "my file" ∷ codes "-n" ∷ [])
tokenizeq-line_example =
    tokenizeq-line (bare (codes "cat") ∷ in_quotes (codes "my file") ∷ bare (codes "-n") ∷ []) 16
      refl (omega arith)

-- Two quotes with nothing between them take in what is behind them.
nothing_in_quotes : tokenizeq (codes "echo '' x") 16 ≡ tokens (codes "echo" ∷ codes " x" ∷ [])
unfolding tokenizeq tokenize from_quote one_more quotedtoken put_before unquote simpletoken
    after_simpletoken skip_space
nothing_in_quotes = refl

-- A backslash hides the closing quote that is two bytes behind it.
hidden_quote : tokenizeq (codes "'ab\\c' d") 16 ≡ tokens (codes "abc d" ∷ [])
unfolding tokenizeq tokenize from_quote one_more quotedtoken put_before unquote simpletoken
    after_simpletoken skip_space
hidden_quote = refl

-- A quote at the end of the line.
last_quote : tokenizeq (codes "echo '") 16 ≡ fault
unfolding tokenizeq tokenize from_quote one_more quotedtoken put_before unquote simpletoken
    after_simpletoken skip_space
last_quote = refl

-- The last word that there is room for takes in the rest of the line.
no_more_room : tokenizeq (codes "a b c") 2 ≡ tokens (codes "a" ∷ codes "b c" ∷ [])
unfolding tokenizeq tokenize from_quote one_more quotedtoken put_before unquote simpletoken
    after_simpletoken skip_space
no_more_room = refl

-- ===== src/Parser/Refused.antt =====
-- A text that is parsed is refused by the tokenizer, which is given no operations.
use libpolycall_v.Tokenizer.Short.{tokenizer_process_short}
use libpolycall_v.Prelude.{
  refl, none, some, false, [], List, ℕ, Option, ◌≡◌, length, codes, ◌<◌, ◌==◌, arith,
}
use libpolycall_v.Parser.Strings.{
  PolycallParser, parse_string, Tree, set_parser_error, located, last_token,
}
use libpolycall_v.Token.{Token}
use libpolycall_v.Tokenizer.{set_input}

-- What a refused text leaves: no tree, and the message.
pub record IsRefusedText (r : Option (PolycallParser × Tree)) : Type 0 where
  pub out : PolycallParser
  pub result : r ≡ some (out, none)
  pub message : out.message ≡ codes "Tokenization failed"

set_parser_error-message :
    (parser : PolycallParser) (token : Option Token) (m : List ℕ)
    → (located (record parser { message = m }) token).message ≡ m
set_parser_error-message parser none m = refl
set_parser_error-message parser (some t) m = refl

-- With a buffer of the size that was asked for, every text that is not empty and does not fill
-- the buffer is refused: the parser gives no tree and says that the tokenization failed.
pub parse_string_refused :
    (strtod strtoll : List ℕ → ℕ) (fuel : ℕ) (parser : PolycallParser) (input : List ℕ)
    → length parser.tokenizer.buffer ≡ parser.tokenizer.size
    → 0 < length input
    → length input < parser.tokenizer.size
    → IsRefusedText (parse_string strtod strtoll fuel parser (some input))
unfolding parse_string set_parser_error
parse_string_refused strtod strtoll fuel parser input b n l =
    let given = set_input parser.tokenizer (some input) in
    let (ok, r) = tokenizer_process_short strtod strtoll parser.tokenizer [] input tt b n l in
    let e : (length input == 0) ≡ false = ground (arith, n) in
    rw (e, ok, r.result)
      (record {
        out = set_parser_error (record parser { tokenizer = r.out }) (codes "Tokenization failed");
        result = refl;
        message =
            set_parser_error-message (record parser { tokenizer = r.out })
              (last_token r.out.tokens.tokens) (codes "Tokenization failed");
      })

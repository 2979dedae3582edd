-- ===== src/Escape/Tests.antt =====
-- Runs of the escapes, and their theorems at concrete inputs.
use rp_lib_utils.Common.{
  ◌≤◌, ◌<◌, ◌≡◌, ◌↔◌, refl, arith, true, [], ◌∷◌, ◌++◌, List, none, some, codes, length, All,
}
use rp_lib_utils.Escape.Chars.{should_escape, bin2hex, hex2bin}
use rp_lib_utils.Escape.Buffer.{Out, poke, store, store_all, terminate}
use rp_lib_utils.Escape.Encode.{
  until_nul, text_of, escaped_length, escape_char, escape_loop, escape_to, escape,
}
use rp_lib_utils.Escape.Decode.{
  hex_pair, unescapable_length, unescaped_length, digit, pair_value, unescape_loop, unescape_to,
  unescape,
}
use rp_lib_utils.Escape.Escaped.{escaped, escape-escaped, IsEscaped, escaped-IsEscaped}
use rp_lib_utils.Escape.Url.{
  Arg, has, ends_with, lacks_slash, put_base, put_question, put_separator, put_value, args_loop,
  escape_url_to_lengths, escape_url_to, escape_url, escape_args,
}
use rp_lib_utils.Escape.Args.{
  strcspn, part_from, part_of, count_loop, put_text, fill_part, fill_loop, counted_of, filled_of,
  unescape_args, text_at, same_text, args_get,
}
use rp_lib_utils.Escape.ArgsReading.{read_block, read_pairs, texts_of}
use rp_lib_utils.Escape.ArgsRoundTrip.{unescape_args-escape_args}
use rp_lib_utils.Escape.RoundTrip.{unescape-escape}
use rp_lib_utils.Escape.Malformed.{WellFormed, unescape_to_gap}

escape_text : escape true 7 (codes "a b/c\0x") 0 ≡ (some (codes "a+b%2Fc\0"), 7)
unfolding escape text_of until_nul escaped_length escape_to escape_loop escape_char should_escape
    bin2hex store poke terminate
escape_text = refl

-- The length returned for a text with a malformed escape is that of the decoded text and one more.
unescape_malformed : unescape true 7 (codes "100%") 4 ≡ (some (codes "100\0" ++ (7 ∷ [])), 4)
unfolding unescape text_of unescaped_length unescapable_length unescape_to unescape_loop hex_pair
    pair_value digit hex2bin store poke terminate
unescape_malformed = refl

text_of_ab : text_of (codes "a/b") 3 ≡ codes "a/b"
unfolding text_of
text_of_ab = refl

escape-escaped_example : escape true 7 (codes "a/b") 3 ≡ (
  some (escaped (text_of (codes "a/b") 3) ++ (0 ∷ [])),
  length (escaped (text_of (codes "a/b") 3)),
)
escape-escaped_example = escape-escaped 7 (codes "a/b") 3 (unfold text_of in omega arith)

escaped-IsEscaped_example : All IsEscaped (escaped (codes "a&b=c"))
escaped-IsEscaped_example = escaped-IsEscaped (codes "a&b=c") (omega arith)

escape_ab : escape true 7 (codes "a/b") 3 ≡ (some (codes "a%2Fb\0"), 5)
unfolding escape text_of until_nul escaped_length escape_to escape_loop escape_char should_escape
    bin2hex store poke terminate
escape_ab = refl

unescape-escape_example :
    unescape true 9 (codes "a%2Fb\0") 5
    ≡ (some (text_of (codes "a/b") 3 ++ (0 ∷ [])), length (text_of (codes "a/b") 3))
unescape-escape_example =
    unescape-escape 7 9 (codes "a/b") 3 (codes "a%2Fb\0") 5 (unfold text_of in omega arith)
      escape_ab

abbrev cut_out : Out
cut_out = unescape_to (codes "1%4") (record { buffer = 1 ∷ 2 ∷ 3 ∷ []; r = 0 })

unescape_to_gap_example :
    (cut_out.r ≤ unescaped_length (codes "1%4"))
    × ((cut_out.r < unescaped_length (codes "1%4")) ↔ (¬ WellFormed (codes "1%4")))
unescape_to_gap_example = unescape_to_gap (codes "1%4") (1 ∷ 2 ∷ 3 ∷ [])

abbrev pairs : List Arg
pairs =
    record { key = codes "k"; value = some (codes "a b") }
    ∷ record { key = codes "l"; value = none }
    ∷ []

url_run :
    escape_url true 7 (some (codes "http://h")) (some (codes "p")) (some pairs)
    ≡ (some (codes "http://h/p?k=a+b&l\0"), 18)
unfolding escape_url escape_url_to escape_url_to_lengths put_base lacks_slash ends_with store_all
    args_loop put_separator put_question has put_value escape_to escape_loop escape_char
    should_escape bin2hex store poke terminate
url_run = refl

args_run : escape_args true 7 pairs ≡ (some (codes "k=a+b&l\0"), 7)
unfolding escape_args escape_url escape_url_to escape_url_to_lengths put_base store_all args_loop
    put_separator put_value escape_to escape_loop escape_char should_escape bin2hex store poke
    terminate
args_run = refl

unescape_args-escape_args_example :
    read_block (unescape_args true 9 (until_nul (codes "k=a+b&l\0"))) ≡ some (texts_of pairs)
unescape_args-escape_args_example =
    unescape_args-escape_args 7 9 pairs (codes "k=a+b&l\0") 7
      ((omega arith, omega arith), ((omega arith, tt), tt)) args_run (omega arith)

-- A pair without a name in the middle, and a value with an equals sign.
unescape_args_run :
    read_block (unescape_args true 9 (codes "a=b=c&&d"))
    ≡ some ((codes "a", codes "b=c") ∷ ([], []) ∷ (codes "d", []) ∷ [])
unfolding unescape_args filled_of counted_of count_loop fill_loop fill_part put_text part_of
    part_from strcspn read_pairs text_at until_nul unescape_to unescape_loop unescapable_length
    unescaped_length store poke terminate
unescape_args_run = refl

args_get_run : args_get (codes "a\0b\0") (record { key = 0; value = 2 } ∷ []) (codes "a") ≡ some 2
unfolding args_get same_text text_at until_nul
args_get_run = refl

-- ===== src/Base64/Tests.antt =====
-- Runs of the codec, and its theorems at concrete inputs.
use rp_lib_utils.Common.{Bytes, length, true, false, codes, [], ◌≡◌, ◌↔◌, refl, arith}
use rp_lib_utils.Base64.Text.{text, encode-text}
use rp_lib_utils.Base64.RoundTrip.{decode-encode}
use rp_lib_utils.Base64.Accepted.{Accepted, decode-Accepted}
use rp_lib_utils.Base64.Result.{ok, ◌>>=◌}
use rp_lib_utils.Base64.Encode.{
  encode, fill, encode_loop, pad_loop, unformatted, padded, formatted, next_sextet, first_byte,
  shift_in, high_bits, symbol, put_char,
}
use rp_lib_utils.Base64.Decode.{decode, decode_loop, tail_loop, value_of, accept, any_variant}

encode_lines :
    encode true (codes "hello, world") 5 true false ≡ ok (codes "aGVsb\nG8sIH\ndvcmx\nk", 19)
unfolding encode fill encode_loop pad_loop unformatted padded formatted next_sextet first_byte
    shift_in high_bits symbol put_char
encode_lines = refl

encode_pads : encode true (codes "hell") 4 true false ≡ ok (codes "aGVs\nbA==\n", 10)
unfolding encode fill encode_loop pad_loop unformatted padded formatted next_sextet first_byte
    shift_in high_bits symbol put_char
encode_pads = refl

decode_lines : decode true true (codes "aGVs\nbA==\n") any_variant ≡ ok (codes "hell")
unfolding decode decode_loop tail_loop value_of accept
decode_lines = refl

encode-text_example :
    encode true (codes "hi") 3 true false
    ≡ ok (text (codes "hi") 3 true false, length (text (codes "hi") 3 true false))
encode-text_example = encode-text (codes "hi") 3 true false (omega arith) (omega arith)

decode-encode_example :
    (encode true (codes "hello") 4 true true >>= λ e. decode true true e.0 any_variant)
    ≡ ok (codes "hello")
decode-encode_example =
    decode-encode (codes "hello") 4 true true any_variant (omega arith) (omega arith) refl

decode-Accepted_example :
    ((out : Bytes) × (decode true true (codes "A\n=") any_variant ≡ ok out))
    ↔ Accepted any_variant (codes "A\n=")
decode-Accepted_example = decode-Accepted any_variant (codes "A\n=")

-- One character alone, which stands for no byte, is taken.
decode_dangling : decode true true (codes "A") any_variant ≡ ok []
unfolding decode decode_loop tail_loop value_of accept
decode_dangling = refl

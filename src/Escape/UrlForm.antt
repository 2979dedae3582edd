-- ===== src/Escape/UrlForm.antt =====
-- A description of the URL that src/http/rp-escape.c builds.
use rp_lib_utils.Common.{List, [], ◌∷◌, ◌++◌, Bytes, Option, none, some, All, IsByte, if◌then◌else◌}
use rp_lib_utils.Escape.Escaped.{escaped}
use rp_lib_utils.Escape.Url.{Arg, is_empty, has, lacks_slash, text_or_empty}

-- The base and the path, with a slash between them where there is none.
abbrev pub joined : Bytes → Bytes → Bytes
joined [] path = path
joined (b ∷ base) path =
    (b ∷ base) ++ ((if lacks_slash (b ∷ base) path then b'/' ∷ [] else []) ++ path)

abbrev pub value_text : Option Bytes → Bytes
value_text none = []
value_text (some value) = b'=' ∷ escaped value

abbrev pub arg_text : Arg → Bytes
arg_text arg = escaped arg.key ++ value_text arg.value

-- Each pair behind an ampersand.
unfoldable pub more_args : List Arg → Bytes
more_args [] = []
more_args (arg ∷ args) = (b'&' ∷ arg_text arg) ++ more_args args

-- What opens the query of a URL.
abbrev pub opening : Bytes → Bytes
opening front = if is_empty front then [] else (if has b'?' front then b'&' else b'?') ∷ []

abbrev pub query : Bytes → List Arg → Bytes
query front [] = []
query front (arg ∷ args) = opening front ++ (arg_text arg ++ more_args args)

unfoldable pub url : Bytes → Bytes → List Arg → Bytes
url base path args = joined base path ++ query (joined base path) args

-- The keys and values consist of bytes.
abbrev pub IsArg : Arg → Type 0
IsArg arg = All IsByte arg.key × All IsByte (text_or_empty arg.value)

-- ===== src/Globset.antt =====
-- src/sandbox/globset.c: sets of handlers for exact names, in a dictionary with hashes, and for
-- patterns with `*`. `tolower` of the C library is handed on to the matching of patterns.
pub mod Moving
pub mod Growing
pub mod Editing
pub mod Handlers
pub mod Sets
pub mod Deleting
pub mod Adding
pub mod Matching
mod Tests
use rp_lib_utils.Common.{
  ℕ, zero, suc, ◌+◌, ◌-◌, ◌*◌, ◌/◌, ◌%◌, ◌^◌, Bool, true, false, not, ◌&&◌, List, [], ◌∷◌, ◌++◌,
  map, length, Bytes, Option, none, some, ltb, leb, ◌==◌, bit_and, bit_or, bit_xor, if◌then◌else◌,
}
use rp_lib_utils.Globmatch.{glob, globmatch}

abbrev pub lower : ℕ → ℕ
lower c = if leb b'A' c && leb c b'Z' then c + 32 else c

-- The hash behind a character; numbers of 32 bits.
unfoldable pub mix : ℕ → ℕ → ℕ
mix hash c =
    let a = (hash + lower c) % 2 ^ 32 in let b = (a + a * 2 ^ 10) % 2 ^ 32 in bit_xor b (b / 2 ^ 6)

abbrev pub is_glob : Bytes → Bool
is_glob [] = false
is_glob (c ∷ from) = if c == glob then true else is_glob from

unfoldable pub mixed : ℕ → Bytes → ℕ
mixed hash [] = hash
mixed hash (c ∷ from) = mixed (mix hash c) from

-- The hash of an exact name of length `i`.
unfoldable pub final : ℕ → ℕ → ℕ
final i hash =
    let a = (hash + i) % 2 ^ 32 in
    let b = (a + a * 2 ^ 3) % 2 ^ 32 in
    let c = bit_xor b (b / 2 ^ 11) in
    let d = (c + c * 2 ^ 15) % 2 ^ 32 in if d == 0 then 1 + i else d

-- `normhash`: the hash, and the normalized text.
unfoldable pub hash_of : Bytes → ℕ
hash_of from = if is_glob from then 0 else final (length from) (mixed 0 from)

abbrev pub normal : Bytes → Bytes
normal from = map lower from

-- `strcmp(a, b) == 0`
unfoldable pub same_text : Bytes → Bytes → Bool
same_text [] [] = true
same_text [] (b ∷ y) = false
same_text (a ∷ x) [] = false
same_text (a ∷ x) (b ∷ y) = let rest = same_text x y in if a == b then rest else false

pub record Pathndl : Type 0 where
  pub hash : ℕ
  pub callback : ℕ
  pub closure : ℕ
  pub pattern : Bytes

-- The array of lists.
abbrev pub Lists : Type 0
Lists = ℕ → List Pathndl

-- `exacts` is `none` where it is NULL.
pub record GlobSet : Type 0 where
  pub globs : List Pathndl
  pub exacts : Option Lists
  pub gmask : ℕ
  pub count : ℕ

abbrev pub change_at : ℕ → (List Pathndl → List Pathndl) → Lists → Lists
change_at k f lists i = if i == k then f (lists i) else lists i

abbrev pub empties : Lists
empties i = []

-- The lists of an array, none where there is no array.
abbrev pub lists_of : Option Lists → Lists
lists_of none = empties
lists_of (some lists) = lists

-- The place of a hash in the array.
abbrev pub place : ℕ → ℕ → ℕ
place hash gmask = bit_and hash gmask

-- Each element of a list is put in front of its new list.
unfoldable pub move_list : ℕ → List Pathndl → Lists → Lists
move_list gmask [] lists = lists
move_list gmask (ph ∷ list) lists =
    move_list gmask list (change_at (place ph.hash gmask) (λ l. ph ∷ l) lists)

-- The first `n` lists are moved.
unfoldable pub move_lists : ℕ → ℕ → Lists → Lists
move_lists gmask zero old = empties
move_lists gmask (suc n) old = move_list gmask (old n) (move_lists gmask n old)

pub data Status : Type 0 where
  done exists absent overflow no_memory fault : Status

abbrev pub wider : ℕ → ℕ
wider gmask = bit_or (gmask * 2 % 2 ^ 32) 15

abbrev pub grown : GlobSet → GlobSet
grown set = record set {
  gmask = wider set.gmask;
  exacts = some (
      if set.gmask == 0
      then empties
      else move_lists (wider set.gmask) (suc set.gmask) (lists_of set.exacts));
}

-- The first argument tells whether `calloc` succeeds.
unfoldable pub grow : Bool → GlobSet → Status × GlobSet
grow calloc set =
    if ltb ((set.count + 1) % 2 ^ 32) (set.gmask - set.gmask / 4)
    then (done, set)
    else if leb ((wider set.gmask + 1) % 2 ^ 32) (wider set.gmask)
    then (overflow, set)
    else if calloc
    then (done, grown set)
    else (no_memory, set)

unfoldable pub find : Bytes → List Pathndl → Option Pathndl
find text [] = none
find text (ph ∷ list) =
    let rest = find text list in if same_text text ph.pattern then some ph else rest

-- The list in which `search` looks.
unfoldable pub list_for : GlobSet → ℕ → List Pathndl
list_for set hash = if hash == 0 then set.globs else lists_of set.exacts (place hash set.gmask)

unfoldable pub search : GlobSet → Bytes → ℕ → Option Pathndl
search set text hash = find text (list_for set hash)

abbrev pub globset_create : GlobSet
globset_create = record { globs = []; exacts = none; gmask = 0; count = 0 }

-- A change of the list for a hash; there is one, or a list of globs.
unfoldable pub change_list : ℕ → (List Pathndl → List Pathndl) → GlobSet → Option GlobSet
change_list hash f set =
    if hash == 0 then some (record set { globs = f set.globs }) else elim set.exacts [
      | none ↦ none
      | some lists ↦ some (record set { exacts = some (change_at (place hash set.gmask) f lists) })
    ]

abbrev pub put_back : GlobSet → Option GlobSet → Status × GlobSet
put_back set none = (fault, set)
put_back set (some set') = (done, set')

abbrev pub append_new : Bytes → ℕ → ℕ → ℕ → List Pathndl → List Pathndl
append_new pat hash callback closure list =
    list ++ (record { hash = hash; callback = callback; closure = closure; pattern = pat } ∷ [])

abbrev pub count_up : ℕ → GlobSet → GlobSet
count_up hash set = record set {
  count = (if hash == 0 then set.count else (set.count + 1) % 2 ^ 32);
}

abbrev pub count_down : ℕ → GlobSet → GlobSet
count_down hash set = record set {
  count = (if hash == 0 then set.count else (set.count + 2 ^ 32 - 1) % 2 ^ 32);
}

-- The new handler behind the search.
unfoldable pub add_new : Bool → Bytes → ℕ → ℕ → ℕ → GlobSet → Status × GlobSet
add_new malloc pat hash callback closure set = elim (search set pat hash) [
  | some ph ↦ (exists, set)
  | none ↦
      if malloc
      then put_back set
          (change_list hash (append_new pat hash callback closure) (count_up hash set))
      else (no_memory, set)
]

abbrev pub add_grown : Bool → Bytes → ℕ → ℕ → ℕ → Status × GlobSet → Status × GlobSet
add_grown malloc pat hash callback closure (done, set) =
    add_new malloc pat hash callback closure set
add_grown malloc pat hash callback closure (exists, set) = (exists, set)
add_grown malloc pat hash callback closure (absent, set) = (absent, set)
add_grown malloc pat hash callback closure (overflow, set) = (overflow, set)
add_grown malloc pat hash callback closure (no_memory, set) = (no_memory, set)
add_grown malloc pat hash callback closure (fault, set) = (fault, set)

-- The first arguments tell whether `calloc` and `malloc` succeed.
unfoldable pub globset_add : Bool → Bool → GlobSet → Bytes → ℕ → ℕ → Status × GlobSet
globset_add calloc malloc set pattern callback closure =
    let hash = hash_of pattern in
    add_grown malloc (normal pattern) hash callback closure
      (if hash == 0 then (done, set) else grow calloc set)

-- The list without the first element of that text.
unfoldable pub remove : Bytes → List Pathndl → List Pathndl
remove text [] = []
remove text (ph ∷ list) =
    let rest = remove text list in if same_text text ph.pattern then list else ph ∷ rest

-- The closure is given where there was a handler.
unfoldable pub globset_del : GlobSet → Bytes → Option ℕ × (Status × GlobSet)
globset_del set pattern =
    let pat = normal pattern in
    let hash = hash_of pattern in
    elim (search set pat hash) [
      | none ↦ (none, (absent, set))
      | some ph ↦
          (some ph.closure, put_back set (change_list hash (remove pat) (count_down hash set)))
    ]

unfoldable pub globset_search : GlobSet → Bytes → Option Pathndl
globset_search set pattern = search set (normal pattern) (hash_of pattern)

-- An exact match has the hash, too.
unfoldable pub find_exact : ℕ → Bytes → List Pathndl → Option Pathndl
find_exact hash text [] = none
find_exact hash text (ph ∷ list) =
    let rest = find_exact hash text list in
    if ph.hash == hash && same_text text ph.pattern then some ph else rest

unfoldable pub best_match : (ℕ → ℕ) → Bytes → List Pathndl → ℕ → Option Pathndl → Option Pathndl
best_match tolower text [] s ph = ph
best_match tolower text (iph ∷ list) s ph =
    let g = globmatch tolower iph.pattern text in
    best_match tolower text list (if ltb s g then g else s) (if ltb s g then some iph else ph)

unfoldable pub globset_match : (ℕ → ℕ) → GlobSet → Bytes → Option Pathndl
globset_match tolower set text =
    let hash = hash_of text in
    let txt = normal text in
    let exact =
      if hash == 0
      then none
      else find_exact hash txt (lists_of set.exacts (place hash set.gmask)) in
    elim exact [ none ↦ best_match tolower txt set.globs 0 none | some ph ↦ some ph ]

-- The handlers of the first `n` lists.
unfoldable pub listed : ℕ → Lists → List Pathndl
listed zero lists = []
listed (suc n) lists = listed n lists ++ lists n

-- The handlers that are freed, in order; the array and the set are freed behind them.
unfoldable pub globset_destroy : GlobSet → List Pathndl
globset_destroy set =
    (if set.gmask == 0 then [] else listed (suc set.gmask) (lists_of set.exacts)) ++ set.globs

-- ===== src/ExpandVars/Search/Order.antt =====
-- Which definition a name resolves to.
use rp_lib_utils.Common.{
  ◌≡◌, ◌≢◌, ◌↔◌, refl, ap, arith, List, [], ◌∷◌, ◌++◌, Bytes, Option, none, some, All, Option-cases,
  inl, inr,
}
use rp_lib_utils.ExpandVars.Search.{
  value_of, search_vars, search_arrays, until_null, before_env_after,
}

value_of_sound :
    (var name value : Bytes) → value_of var name ≡ some value → var ≡ name ++ (b'=' ∷ value)
unfolding value_of
value_of_sound [] [] value h = cc
value_of_sound (e ∷ var) [] value h = ground arith
value_of_sound [] (n ∷ name) value h = cc
value_of_sound (v ∷ var) (n ∷ name) value h = ground (arith, value_of_sound var name value)

value_of_definition : (name value : Bytes) → value_of (name ++ (b'=' ∷ value)) name ≡ some value
unfolding value_of
value_of_definition [] value = refl
value_of_definition (n ∷ name) value = ground (arith, value_of_definition name value)

-- A place in an array of definitions: the first one for `name`, which gives it `value`.
pub record FirstDefinition (vars : List Bytes) (name value : Bytes) : Type 0 where
  pub front : List Bytes
  pub back : List Bytes
  pub split : vars ≡ front ++ ((name ++ (b'=' ∷ value)) ∷ back)
  pub none_before : All (λ var. (v : Bytes) → var ≢ name ++ (b'=' ∷ v)) front

search_vars_sound :
    (vars : List Bytes) (name value : Bytes)
    → search_vars vars name ≡ some value
    → FirstDefinition vars name value
unfolding search_vars
search_vars_sound [] name value h = cc
search_vars_sound (var ∷ vars) name value h = elim (Option-cases (value_of var name)) [
  | inl e ↦
      let d = search_vars_sound vars name value (ground arith) in
      record {
        front = var ∷ d.front;
        back = d.back;
        split = ap (λ vs. var ∷ vs) d.split;
        none_before = (λ v p. other v p e, d.none_before);
      }
  | inr (v, e) ↦ record {
    front = [];
    back = vars;
    split = ap (λ w. w ∷ vars) (value_of_sound var name value (ground arith));
    none_before = tt;
  }
]
  where
    other : (v : Bytes) → var ≡ name ++ (b'=' ∷ v) → value_of var name ≡ none → ⊥
    other v p e = cc (value_of_definition name v)

search_vars_first :
    (front back : List Bytes) (name value : Bytes)
    → All (λ var. (v : Bytes) → var ≢ name ++ (b'=' ∷ v)) front
    → search_vars (front ++ ((name ++ (b'=' ∷ value)) ∷ back)) name ≡ some value
unfolding search_vars
search_vars_first [] back name value h = ground (arith, value_of_definition name value)
search_vars_first (var ∷ front) back name value (h, hs) = elim (Option-cases (value_of var name)) [
  | inl e ↦ rw (search_vars, e) (search_vars_first front back name value hs)
  | inr (v, e) ↦ absurd (h v (value_of_sound var name v e))
]

-- `rp_expand_vars_search` returns a value exactly when the array has a definition of the name, and
-- then it is the value of the first one.
pub search_vars-FirstDefinition :
    (vars : List Bytes) (name value : Bytes)
    → (search_vars vars name ≡ some value) ↔ FirstDefinition vars name value
search_vars-FirstDefinition vars name value = (
  search_vars_sound vars name value,
  λ d. rw d.split (search_vars_first d.front d.back name value d.none_before),
)

search_vars-append :
    (vars more : List Bytes) (name : Bytes)
    → search_vars (vars ++ more) name
      ≡ elim (search_vars vars name) [ some value ↦ some value | none ↦ search_vars more name ]
unfolding search_vars
search_vars-append [] more name = refl
search_vars-append (var ∷ vars) more name = ground (arith, search_vars-append vars more name)

search_vars-nil : (name : Bytes) → search_vars [] name ≡ none
unfolding search_vars
search_vars-nil name = refl

-- The entries of an array that may be absent.
abbrev pub entries : Option (List Bytes) → List Bytes
entries none = []
entries (some vars) = vars

-- The arrays of `rp_expand_vars` are searched as one: `before`, then the environment, then `after`,
-- each of the two others if it is there.
search_arrays-before_env_after :
    (before after : Option (List Bytes)) (env : List Bytes) (name : Bytes)
    → search_arrays (before_env_after before env after) name
      ≡ search_vars (entries before ++ (env ++ entries after)) name
unfolding search_arrays before_env_after until_null
search_arrays-before_env_after none none env name =
    ground (arith, search_vars-append env [] name, search_vars-nil name)
search_arrays-before_env_after none (some after) env name =
    ground (arith, search_vars-append env after name)
search_arrays-before_env_after (some before) none env name = ground (
  arith,
  search_vars-append before (env ++ []) name,
  search_vars-append env [] name,
  search_vars-nil name,
)
search_arrays-before_env_after (some before) (some after) env name =
    ground (arith, search_vars-append before (env ++ after) name, search_vars-append env after name)

-- ===== src/Globset/Tests.antt =====
-- Runs of the sets of handlers, and concrete cases of their theorems.
use rp_lib_utils.Common.{
  ◌≡◌, refl, true, not, map, [], ◌∷◌, ◌&&◌, codes, Option, none, some, if◌then◌else◌,
}
use rp_lib_utils.Globmatch.{eq, last_glob, best, match_from, match_score, globmatch}
use rp_lib_utils.Globset.{
  listed, globset_destroy, mix, mixed, final, hash_of, normal, same_text, Pathndl, move_list,
  move_lists, GlobSet, done, grow, find, list_for, search, globset_create, change_list, add_new,
  globset_add, remove, globset_del, globset_search, find_exact, best_match, globset_match,
}
use rp_lib_utils.Globset.Adding.{globset_add-done}
use rp_lib_utils.Globset.Matching.{exact, IsBest, globset_match-IsBest}
use rp_lib_utils.Globset.Moving.{or_else}
use rp_lib_utils.Globset.Growing.{IsValid}
use rp_lib_utils.Globset.Editing.{is_done}
use rp_lib_utils.Globset.Sets.{handler, globset_search-globset_add}
use rp_lib_utils.Globset.Deleting.{closure_of, is_some, globset_search-globset_del}

globset_create-IsValid : IsValid globset_create
globset_create-IsValid = record {
  dictionary = record { placed = λ i. tt; distinct = λ i. tt };
  present = refl;
  patterns = tt;
  distinct = tt;
}

-- A set with a name and a pattern.
abbrev one : GlobSet
one = (globset_add true true globset_create (codes "Name") 1 2).1

abbrev two : GlobSet
two = (globset_add true true one (codes "n*") 3 4).1

globset_search-globset_add_example :
    IsValid one
    × (globset_search one (codes "NAME") ≡ (
        if is_done (globset_add true true globset_create (codes "Name") 1 2).0
          && same_text (normal (codes "NAME")) (normal (codes "Name"))
        then some (handler 1 2 (normal (codes "Name")))
        else globset_search globset_create (codes "NAME")))
globset_search-globset_add_example =
    globset_search-globset_add true true globset_create (codes "Name") 1 2 (codes "NAME")
      globset_create-IsValid

globset_search-globset_del_example :
    ((globset_del one (codes "nAME")).0 ≡ closure_of (globset_search one (codes "nAME")))
    × (is_done (globset_del one (codes "nAME")).1.0 ≡ is_some (globset_search one (codes "nAME")))
    × IsValid (globset_del one (codes "nAME")).1.1
    × (globset_search (globset_del one (codes "nAME")).1.1 (codes "name") ≡ (
        if is_some (globset_search one (codes "nAME"))
          && same_text (normal (codes "name")) (normal (codes "nAME"))
        then none
        else globset_search one (codes "name")))
globset_search-globset_del_example =
    globset_search-globset_del one (codes "nAME") (codes "name")
      globset_search-globset_add_example.0

add_run : globset_search one (codes "NAME") ≡ some (handler 1 2 (codes "name"))
unfolding globset_add grow move_list move_lists add_new search list_for find change_list same_text
    globset_search hash_of mixed mix final
add_run = refl

del_run : (globset_del one (codes "nAME")).0 ≡ some 2
unfolding globset_del remove globset_add grow move_list move_lists add_new search list_for find
    change_list same_text globset_search hash_of mixed mix final
del_run = refl

-- A name is found before a pattern that matches it.
match_run : closure_of (globset_match (λ c. c) two (codes "name")) ≡ some 2
unfolding globset_match find_exact best_match globmatch match_score match_from best last_glob eq
    globset_add grow move_list move_lists add_new search list_for find change_list same_text
    globset_search hash_of mixed mix final
match_run = refl

best_run : closure_of (globset_match (λ c. c) two (codes "nobody")) ≡ some 4
unfolding globset_match find_exact best_match globmatch match_score match_from best last_glob eq
    globset_add grow move_list move_lists add_new search list_for find change_list same_text
    globset_search hash_of mixed mix final
best_run = refl

globset_match-IsBest_example :
    (ph : Option Pathndl) × (globset_match (λ c. c) one (codes "nAme")
      ≡ or_else (exact one (codes "nAme")) ph)
    × IsBest (λ c. c) (normal (codes "nAme")) one.globs none ph
globset_match-IsBest_example =
    globset_match-IsBest (λ c. c) one (codes "nAme") globset_search-globset_add_example.0

grow_run : (grow true one).0 ≡ done
unfolding globset_add grow move_list move_lists add_new search list_for find change_list same_text
    hash_of mixed mix final
grow_run = refl

globset_add-done_example :
    is_done (globset_add true true one (codes "NAME") 5 6).0
    ≡ not (is_some (globset_search one (codes "NAME")))
globset_add-done_example =
    globset_add-done true one (codes "NAME") 5 6 globset_search-globset_add_example.0 grow_run

-- Both handlers of the set are freed.
destroy_run : map (λ ph. ph.closure) (globset_destroy two) ≡ 2 ∷ 4 ∷ []
unfolding globset_destroy listed globset_add grow move_list move_lists add_new search list_for find
    change_list same_text hash_of mixed mix final
destroy_run = refl

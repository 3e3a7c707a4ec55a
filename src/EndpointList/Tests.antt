-- ===== src/EndpointList/Tests.antt =====
-- The theorems on the endpoint list, at a list of two endpoints.
use victoriametrics_importer.Prelude.{◌≡◌, refl, true, none, some, [], ◌∷◌, ◌==◌, if◌then◌else◌}
use victoriametrics_importer.Prelude.Int.{pos}
use victoriametrics_importer.EndpointList.{Endpoint, Dll, add_to_head, remove}
use victoriametrics_importer.EndpointList.Refine.{Rep, remove-Rep}
use victoriametrics_importer.EndpointList.HeadBug.{add_to_head-one_way}

abbrev blank : Endpoint
blank = record {
  url = "http://localhost:8428";
  mark_unhealthy_threshold = pos 3;
  healthy = true;
  num_errors = 0;
  error_ts = 0;
  prev = none;
  next = none;
}

-- Endpoints 1 and 2, in this order.
abbrev two_endpoints : Dll
two_endpoints = record {
  head = some 1;
  tail = some 2;
  mem = λ a.
      if a == 1
      then record blank { next = some 2 }
      else if a == 2
      then record blank { prev = some 1 }
      else blank;
}

two_endpoints-Rep : Rep two_endpoints (1 ∷ 2 ∷ [])
two_endpoints-Rep = record {
  head = refl;
  tail = refl;
  chain = (refl, refl, (refl, refl, tt));
  distinct = (refl, (refl, tt));
}

remove-Rep_example :
    Rep (remove 1 two_endpoints) (2 ∷ [])
    × ((remove 1 two_endpoints).mem 1).prev ≡ none
    × ((remove 1 two_endpoints).mem 1).next ≡ none
remove-Rep_example = remove-Rep 1 (1 ∷ 2 ∷ []) two_endpoints refl two_endpoints-Rep

add_to_head-one_way_example :
    (((add_to_head 3 two_endpoints).mem 3).next ≡ some 1)
    × (((add_to_head 3 two_endpoints).mem 1).prev ≡ none)
add_to_head-one_way_example = add_to_head-one_way 3 1 (2 ∷ []) two_endpoints refl two_endpoints-Rep

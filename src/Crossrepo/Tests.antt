-- ===== src/Crossrepo/Tests.antt =====
-- src/crossrepo.rs: its test's surfaces run through the model, and the theorem about them there.
use glasir_control.Prelude.{
  list_beq, ◌≡◌, refl, ◌↔◌, some, List, [], ◌∷◌, nat_eq, Bool_eq, list_eq, pair_eq,
}
use glasir_control.Text.{codes}
use glasir_control.Json.{string_value}
use glasir_control.Crossrepo.{RouteJson, RequestJson, Surface, Link, links, callers_of_changes}
use glasir_control.Crossrepo.Membership.{In}
use glasir_control.Crossrepo.Linking.{IsLink, links_iff}

abbrev show : RouteJson
show = record {
  handler = some (codes "Api.java#show");
  verb = some (codes "GET");
  segments = codes "items" ∷ codes "*" ∷ [];
}

abbrev by : RouteJson
by = record {
  handler = some (codes "Api.java#by");
  verb = some (codes "GET");
  segments = codes "items" ∷ codes "by" ∷ [];
}

abbrev asks_by : RequestJson
asks_by = record {
  sender = some (codes "a.ts#some");
  verb = some (codes "GET");
  segments = codes "items" ∷ codes "by" ∷ [];
  path = string_value (codes "/items/by");
}

abbrev surfaces : List Surface
surfaces =
    record { tree_name = codes "server"; routes = show ∷ by ∷ []; requests = [] }
    ∷ record { tree_name = codes "client"; routes = []; requests = asks_by ∷ [] }
    ∷ []

abbrev found : Link
found = record {
  from_tree = codes "client";
  sender = codes "a.ts#some";
  verb = codes "GET";
  path = string_value (codes "/items/by");
  to_tree = codes "server";
  handler = codes "Api.java#by";
}

unfoldable run : Unit {0}
unfolding links callers_of_changes list_beq
run = tt

only_by : links surfaces ≡ found ∷ []
unfolding run
only_by = refl

called_by_client :
    callers_of_changes
      (found ∷ [])
      ((codes "server", codes "Api.java#show" ∷ codes "Api.java#by" ∷ []) ∷ [])
    ≡ record {
      tree_name = codes "server";
      handler = codes "Api.java#by";
      callers =
          record {
            tree_name = codes "client";
            sender = codes "a.ts#some";
            verb = codes "GET";
            path = string_value (codes "/items/by");
          }
          ∷ [];
    }
      ∷ []
unfolding run
called_by_client = refl

links_iff_example : In found (links surfaces) ↔ IsLink surfaces found
links_iff_example = links_iff surfaces found

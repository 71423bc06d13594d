-- ===== src/Proxy/Tests.antt =====
-- src/proxy.rs: a rights file's requests run through the model, and the theorems about it there.
use glasir_control.Prelude.{
  list_beq, ◌≡◌, refl, ◌↔◌, inl, true, false, none, some, [], ◌∷◌, nat_eq, Bool_eq, list_eq,
  pair_eq,
}
use glasir_control.Text.{Text, codes, to_ascii_lowercase}
use glasir_control.Text.Order.{sorted_set}
use glasir_control.HashMap.{get, get_list, extend}
use glasir_control.Rights.{Tree, tree, roles_for, may}
use glasir_control.Rights.Parse.{parse}
use glasir_control.Security.{is_valid_identifier, Header}
use glasir_control.Proxy.{Request, header, tree_of, to_tree, route, backend_head}
use glasir_control.Proxy.Routing.{IsRouted, route_iff, route_hides}
use glasir_control.Proxy.Head.{backend_head-drops}

abbrev alpha : Tree
alpha = record { name = codes "alpha"; addr = codes "127.0.0.1:7001"; token = codes "secret-a" }

abbrev file : Text
file =
    codes
      "tree\talpha\t127.0.0.1:7001\tsecret-a\ntree\tbeta\t127.0.0.1:7002\tsecret-b\ngrant\tcarla\talpha\n"

unfoldable run : Unit {0}
unfolding may parse tree tree_of route backend_head header is_valid_identifier roles_for sorted_set
    get_list get extend to_ascii_lowercase list_beq
run = tt

carla_routed : route (parse file) (some (codes "carla")) (codes "/mcp/alpha?x=1") ≡ to_tree alpha
unfolding run
carla_routed = refl

alpha_named : tree_of (codes "/mcp/alpha") ≡ some (codes "alpha")
unfolding run
alpha_named = refl

beta_named : tree_of (codes "/mcp/beta") ≡ some (codes "beta")
unfolding run
beta_named = refl

carla_misses_beta : may (parse file) (codes "carla") (codes "beta") ≡ false
unfolding run
carla_misses_beta = refl

beta_absent : tree (parse (codes "grant\tcarla\talpha\n")) (codes "beta") ≡ none
unfolding run
beta_absent = refl

alpha_valid : is_valid_identifier (codes "alpha") ≡ true
unfolding run
alpha_valid = refl

route_iff_example :
    (route (parse file) (some (codes "carla")) (codes "/mcp/alpha?x=1") ≡ to_tree alpha)
    ↔ IsRouted (parse file) (some (codes "carla")) (codes "/mcp/alpha?x=1") alpha
route_iff_example = route_iff (parse file) (some (codes "carla")) (codes "/mcp/alpha?x=1") alpha

route_hides_example :
    route (parse file) (some (codes "carla")) (codes "/mcp/beta")
    ≡ route (parse (codes "grant\tcarla\talpha\n")) (some (codes "carla")) (codes "/mcp/beta")
route_hides_example =
    route_hides (parse file) (parse (codes "grant\tcarla\talpha\n")) (codes "carla")
      (codes "/mcp/beta") (codes "beta") beta_named carla_misses_beta beta_absent

abbrev accept_json : Header
accept_json = (codes "Accept", codes "application/json")

abbrev bearer : Header
bearer = (codes "AUTHORIZATION", codes "Bearer mine")

abbrev call : Request
call = record {
  method = codes "POST";
  path = codes "/mcp/alpha";
  headers = accept_json ∷ bearer ∷ [];
  body = 123 ∷ 125 ∷ [];
}

call_head :
    backend_head alpha call
    ≡ codes
        "POST /mcp HTTP/1.1\r\nAccept: application/json\r\nHost: 127.0.0.1:7001\r\nAuthorization: Bearer secret-a\r\nContent-Length: 2\r\nConnection: close\r\n\r\n"
unfolding run
call_head = refl

backend_head-drops_example :
    backend_head alpha call ≡ backend_head alpha (record call { headers = accept_json ∷ [] })
unfolding to_ascii_lowercase
backend_head-drops_example =
    backend_head-drops alpha call (accept_json ∷ []) [] (codes "AUTHORIZATION")
      (codes "Bearer mine") refl (inl refl)

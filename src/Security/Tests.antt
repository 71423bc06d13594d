-- ===== src/Security/Tests.antt =====
-- src/security.rs: the examples of its tests, and the theorems about it at concrete inputs.
use glasir_control.Prelude.{
  list_beq, ◌≡◌, refl, ◌↔◌, true, not, ◌&&◌, none, some, List, [], ◌∷◌, arith, all, nat_eq, Bool_eq,
  list_eq, pair_eq, ok, err,
}
use glasir_control.Text.{codes}
use glasir_control.Text.Utf8.{is_scalar}
use glasir_control.Security.{
  constant_time_eq, url_decode, is_valid_principal, is_valid_identifier, multiple_lengths, Header,
  is_named, is_number, validate_http_smuggling, percent_encode,
}
use glasir_control.Security.Decoding.{AreBytes, url_decode-percent_encode}
use glasir_control.Security.Smuggling.{IsFramed, validate_http_smuggling_iff}

unfoldable run : Unit {0}
unfolding url_decode percent_encode is_valid_identifier is_valid_principal constant_time_eq
    validate_http_smuggling is_named is_number list_beq
run = tt

hidden_slash : url_decode (codes "/mcp%2Falpha") ≡ some (codes "/mcp/alpha")
unfolding run
hidden_slash = refl

half_escape : url_decode (codes "%2") ≡ none
unfolding run
half_escape = refl

dotted_principal :
    is_valid_principal (codes "anna.schmidt") && not (is_valid_identifier (codes "anna.schmidt"))
    ≡ true
unfolding run
dotted_principal = refl

pay_api_valid : is_valid_identifier (codes "pay-api") ≡ true
unfolding run
pay_api_valid = refl

group_is_chars : all is_scalar (codes "dev team/é") ≡ true
unfolding is_scalar
group_is_chars = refl

url_decode-percent_encode_example :
    url_decode (percent_encode (codes "dev team/é")) ≡ some (codes "dev team/é")
url_decode-percent_encode_example = url_decode-percent_encode (codes "dev team/é") group_is_chars

token_is_bytes : AreBytes (codes "token")
token_is_bytes = (omega arith, (omega arith, (omega arith, (omega arith, (omega arith, tt)))))

tokem_is_bytes : AreBytes (codes "tokem")
tokem_is_bytes = (omega arith, (omega arith, (omega arith, (omega arith, (omega arith, tt)))))

abbrev doubled : List Header
doubled = (codes "Content-Length", codes "4") ∷ (codes "content-length", codes "6") ∷ []

doubled_refused : validate_http_smuggling doubled ≡ err multiple_lengths
unfolding run
doubled_refused = refl

validate_http_smuggling_iff_example : (validate_http_smuggling doubled ≡ ok tt) ↔ IsFramed doubled
validate_http_smuggling_iff_example = validate_http_smuggling_iff doubled

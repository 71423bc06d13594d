-- ===== src/Rights/Validate/Tests.antt =====
-- src/rights.rs, `validate_text`: its test files run through the model.
use glasir_control.Prelude.{
  list_beq, ◌≡◌, refl, true, false, [], ◌∷◌, is_empty, contains, nat_eq, Bool_eq, list_eq, pair_eq,
}
use glasir_control.Text.{Text, codes}
use glasir_control.HashMap.{get, get_list, extend}
use glasir_control.Rights.Parse.{parse}
use glasir_control.Security.{is_valid_identifier}
use glasir_control.Rights.Validate.{
  invalid_address, malformed_directive, undefined_role, validate_text, is_valid,
}
use glasir_control.Rights.Validate.Roles.{valid_roles}

abbrev good : Text
good = codes "tree\talpha\t127.0.0.1:7001\tsecret-a\nrole\tdev\talpha\nmember\tanna\tdev\n"

unfoldable run : Unit {0}
unfolding validate_text is_valid parse get_list get extend list_beq is_valid_identifier
run = tt

good_validates : is_valid (validate_text good) ≡ true
unfolding run
good_validates = refl

anna_is_dev : contains (get_list (parse good).members (codes "anna")) (codes "dev") ≡ true
unfolding run
anna_is_dev = refl

undefined_role_found :
    (validate_text (codes "tree\talpha\tnowhere\ttoken\nmember\tanna\tdev\nbad")).errors
    ≡ (1, invalid_address) ∷ (3, malformed_directive) ∷ (2, undefined_role (codes "dev")) ∷ []
unfolding run
undefined_role_found = refl

valid_roles_example : is_empty (get_list (parse good).roles (codes "dev")) ≡ false
valid_roles_example = valid_roles good (codes "anna") (codes "dev") good_validates anna_is_dev

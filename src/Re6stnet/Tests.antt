-- ===== src/Re6stnet/Tests.antt =====
-- Tokens of two instances, a failing openssl and a registry that accepts every token.
use slapos_abilian_edge.Base.{◌≡◌, refl, ◌⊎◌, true, false, none, some, [], ◌∷◌, str_eq}
use slapos_abilian_edge.Base.Dict.{Dict, lookup, insert, erase, has}
use slapos_abilian_edge.Base.Py.{called_process_error, ok, raised}
use slapos_abilian_edge.Base.Text.{Text, codes}
use slapos_abilian_edge.Base.Str.{str_split}
use slapos_abilian_edge.Re6stnet.{
  Tokens, Generated, Openssl, generate_slave_token_list, generate_certificate,
}
use slapos_abilian_edge.Re6stnet.Manager.{Client, add_one, stem, with_suffix, read_file}
use slapos_abilian_edge.Re6stnet.Tokens.{generate_slave_token_list_lem}
use slapos_abilian_edge.Re6stnet.Certificate.{Unfinished, generate_certificate-Unfinished}
use slapos_abilian_edge.Re6stnet.Requests.{Accepted, add_one_lem}

abbrev saved : Tokens
saved = ("SOFTINST-1", codes "1old") ∷ ("SOFTINST-2", codes "2old") ∷ []

abbrev made : Generated
made = record {
  token_dict = ("SOFTINST-2", codes "2old") ∷ ("SOFTINST-3", codes "3new") ∷ [];
  to_add_dict = ("SOFTINST-3", codes "3new") ∷ [];
  to_remove_dict = ("SOFTINST-1", codes "1old") ∷ [];
}

made_of :
    generate_slave_token_list (λ n. codes "new") ("SOFTINST-3" ∷ "SOFTINST-2" ∷ []) saved ≡ ok made
unfolding generate_slave_token_list lookup str_split insert
made_of = refl

generate_slave_token_list_example :
    (has "SOFTINST-2" made.token_dict ≡ true)
    × ((t : Text)
        → lookup "SOFTINST-2" saved ≡ some t
        → lookup "SOFTINST-2" made.token_dict ≡ some t)
    × (lookup "SOFTINST-2" made.to_add_dict ≡ none)
    × (lookup "SOFTINST-2" made.to_remove_dict ≡ none)
unfolding lookup
generate_slave_token_list_example =
    generate_slave_token_list_lem (λ n. codes "new") ("SOFTINST-3" ∷ "SOFTINST-2" ∷ []) saved made
      "SOFTINST-2" made_of

-- The parameters of the key exchange are written, and the command fails.
abbrev openssl : Openssl
openssl = record {
  key_file = "key";
  cert_file = "cert";
  dh_file = "dh";
  openssl_bin = "openssl";
  key_size = "2048";
  serial = ok "0x1";
  check_call = λ command files. (raised (called_process_error 1 []), insert "dh" [] files);
}

failed : generate_certificate openssl [] ≡ (raised (called_process_error 1 []), [])
unfolding generate_certificate lookup erase insert
failed = refl

generate_certificate_example : Unfinished openssl []
generate_certificate_example =
    generate_certificate-Unfinished openssl [] [] (called_process_error 1 []) failed

abbrev client : Client (Unit {0})
client = record {
  add_token = λ email token r. (ok (some token), r);
  delete_token = λ token r. (ok tt, r);
  is_token = λ token r. (ok false, r);
  get_node_prefix = λ email r. (ok [], r);
  revoke = λ cn r. (ok tt, r);
  get_ipv6_address = λ email r. (ok (codes "2001::1"), r);
  get_ipv4_information = λ email r. (ok [], r);
  set_connection_dict = λ info reference r. (ok tt, r);
}

abbrev requests : Dict Text
requests = ("SOFTINST-3.add", codes "3new") ∷ []

apart : str_eq "SOFTINST-3.add" (with_suffix (stem "SOFTINST-3.add") ".status") ≡ false
unfolding with_suffix
apart = refl

request : read_file "SOFTINST-3.add" requests ≡ codes "3new"
unfolding read_file lookup
request = refl

add_one_example :
    let w = add_one client "SOFTINST-3.add" (requests, tt) in
    (w.0 ≡ requests)
    ⊎ (Accepted client "SOFTINST-3.add" (codes "3new") tt
        × (has "SOFTINST-3.add" w.0 ≡ false)
        × (read_file (with_suffix (stem "SOFTINST-3.add") ".status") w.0 ≡ codes "TOKEN_ADDED"))
add_one_example = add_one_lem client "SOFTINST-3.add" b'3' (codes "new") requests tt apart request

-- ===== src/Uri/Tests.antt =====
-- The theorems on addresses and links at small inputs.
use nextpanel.Uri.Compact.Lines.{written, is_filled, given, parse_subscription_text-written}
use nextpanel.Prelude.{
  ◌∷◌, true, false, map, keep, not, is_some, count_where, ◌≡◌, refl, arith, false, [], Option, none,
  some, Text, text, text_eq, trim, decimal, length, last_index_of, read_decimal, lower_unit,
}
use mathlib.Core.Option
use nextpanel.Uri.Numbers.{Number, finite, number, port_of}
use nextpanel.Uri.HostPort.{parse_host_port, split_host_port}
use nextpanel.Uri.Platform.{Host, Json, string, numeral}
use nextpanel.Uri.Socks.{parse_socks_uri, ParsedSocks}
use nextpanel.Uri.Socks.Bounds.{IsUsable, parse_socks_uri-IsUsable}
use nextpanel.Uri.Socks.Stored.{
  parse_stored_socks_exit, stored_json, parse_stored_socks_exit-stored,
}
use nextpanel.Uri.External.{ExternalNode, http, no_tls, base_node}
use nextpanel.Uri.Links.{whole}
use nextpanel.Uri.Vmess.{vmess_node}
use nextpanel.Uri.Vmess.Ports.{address_document, vmess_port_unchecked}
use nextpanel.Uri.Compact.{parse_uri, parse_bare_proxy, parse_subscription_text}
use nextpanel.Uri.Compact.Bounds.{IsImport, parse_uri-IsImport}
use nextpanel.Uri.Compact.Reading.{compact, parse_bare_proxy-compact}

abbrev string_or_none : Json → Option Text
string_or_none (string s) = some s
string_or_none _ = none

abbrev number_or_none : Json → Option Number
number_or_none (numeral n) = some n
number_or_none _ = none

-- A runtime that decodes nothing and parses one document.
abbrev runtime : Host
runtime = record {
  decode_component = λ s. some s;
  base64_bytes = λ s. s;
  base64_text = λ s. s;
  utf8_fatal = λ s. some s;
  utf8_text = λ s. s;
  byte_length = λ s. length s;
  is_ip = λ s. 0;
  domain_to_ascii = λ s. s;
  parse_json = λ s. some (stored_json (record { host = text "h"; port = 80; credentials = none }));
  print_json = λ j. text "{}";
  string_of = string_or_none;
  number_of = number_or_none;
  url = λ s. none;
  query_get = λ q name. none;
}

abbrev proxy : ParsedSocks
proxy = record {
  config = record {
    host = text "h";
    port = 80;
    credentials = some (record { username = text "u"; password = text "p" });
  };
  name = text "x";
}

parse_socks_uri-IsUsable_example : IsUsable proxy
unfolding parse_socks_uri last_index_of read_decimal lower_unit port_of number text_eq
parse_socks_uri-IsUsable_example =
    parse_socks_uri-IsUsable runtime (text "socks5://u:p@h:80#x") proxy refl

parse_stored_socks_exit-stored_example :
    parse_stored_socks_exit runtime (text "{}")
    ≡ some (record { host = text "h"; port = 80; credentials = none })
parse_stored_socks_exit-stored_example =
    parse_stored_socks_exit-stored runtime
      (record { host = text "h"; port = 80; credentials = none }) refl (omega arith) (omega arith)

vmess_port_unchecked_example :
    Option.map
      (λ n. n.port)
      (vmess_node runtime (text "vmess://") (address_document (text "h") (finite false 99_999 0)))
    ≡ some (finite false 99_999 0)
vmess_port_unchecked_example =
    vmess_port_unchecked runtime (text "vmess://") b'h' [] (finite false 99_999 0) (λ s. refl)
      (λ n. refl) refl

abbrev bare : ExternalNode
bare = record (base_node http (text "MiyaIP") (text "h") (whole 80) no_tls (text "h:80:u:p")) {
  username = some (text "u");
  password = some (text "p");
}

parse_uri-IsImport_example : IsImport (trim (text " h:80:u:p")) bare
unfolding parse_uri last_index_of read_decimal parse_host_port split_host_port
parse_uri-IsImport_example = parse_uri-IsImport runtime (text " h:80:u:p") http bare refl

-- A compact proxy, a blank line and a line that is nothing.
parse_subscription_text-written_example :
    let s = written (text "h:80:u:p") ((true, text " ") ∷ (false, text "x") ∷ []) in
    let read =
      map
        (λ line. parse_uri runtime (trim line) http)
        (keep is_filled (text "h:80:u:p" ∷ text " " ∷ text "x" ∷ [])) in
    let found = parse_subscription_text runtime s http in
    (found.nodes ≡ given read) × (found.failed ≡ count_where (λ r. not (is_some r)) read)
unfolding trim parse_bare_proxy parse_host_port split_host_port last_index_of port_of number text_eq
    read_decimal
parse_subscription_text-written_example =
    parse_subscription_text-written runtime http (text "h:80:u:p") (text " ") true
      ((false, text "x") ∷ []) (refl, refl) (refl, refl) ((refl, refl), tt) refl refl

parse_bare_proxy-compact_example :
    parse_bare_proxy (compact (text "h") 80 (text "u") (text "p:q")) http
    ≡ some
        (record (base_node http
          (text "MiyaIP")
          (text "h")
          (whole 80)
          no_tls
          (compact (text "h") 80 (text "u") (text "p:q"))) {
            username = some (text "u");
            password = some (text "p:q");
          })
unfolding trim decimal
parse_bare_proxy-compact_example =
    parse_bare_proxy-compact http b'h' [] 80 (text "u") (text "p:q") refl (λ e. ground arith) refl
      refl (omega arith) (omega arith) refl refl refl refl

-- ===== src/Nodes/Tests.antt =====
-- Concrete runs of the models of apps/server/src/nodes.
use nextpanel.Prelude.{
  ℕ, suc, ◌≡◌, refl, ◌↔◌, inl, true, false, none, some, List, [], ◌∷◌, Text, text, arith, any, find,
}
use nextpanel.Prelude.Exec.{ok, err}
use nextpanel.Uri.Platform.{Host}
use nextpanel.Nodes.Model.{Node, Server, tuic, xray, sing_box, tls_on, running, outside}
use nextpanel.Nodes.Shape.{NodeShape, normalize_node_shape}
use nextpanel.Nodes.Shape.Laws.{IsAllowed, as_input, normalize_node_shape-fixed}
use nextpanel.Nodes.Presets.{protocol_presets, vless_reality, vmess_tcp}
use nextpanel.Nodes.Presets.Ranges.{protocol_presets-Misses}
use nextpanel.Nodes.Ports.{candidate_ports, choose_port}
use nextpanel.Nodes.Ports.Free.{Misses, InPool, choose_port-IsFree}
use nextpanel.Nodes.Ports.Tables.{IsSound}
use nextpanel.Nodes.Credentials.{Creds, Draw, as_given}
use nextpanel.Nodes.Identity.{ensure_credentials}
use nextpanel.Nodes.Identity.Stable.{IsDrawn, ensure_credentials_again}
use nextpanel.Nodes.World.{Outside, Db, has_node_id}
use nextpanel.Nodes.Create.{
  blank_node, CreateNodeDto, create, create_row, provision_or_remove, checked_shape,
}
use nextpanel.Nodes.FromPreset.{CreateNodeFromPresetDto, CreateChainNodeDto}
use nextpanel.Nodes.Update.{UpdateNodeDto}
use nextpanel.Nodes.Replace.{deploy_or_restore}
use nextpanel.Nodes.Replace.Restore.{deploy_or_restore-restored}
use nextpanel.Nodes.Leads.{After}
use nextpanel.Nodes.Manage.{remove_exclusive}
use nextpanel.Nodes.Manage.Removed.{remove_exclusive-undeployed}
use nextpanel.Nodes.Sound.Changes.{Deploys}
use nextpanel.Nodes.Sound.Runs.{
  Request, creates_from_preset, creates_chain, updates, toggles, serve_all, serve_all-IsSound,
}
use nextpanel.Nodes.Sound.Undone.{create-undone}
use nextpanel.Nodes.Dns.{rollback_created_node, provision_cloudflare_dns, stored_or_thrown}
use nextpanel.Nodes.Create.{assert_port_available, sealed_credentials}
use nextpanel.Nodes.Ports.{
  is_free, derived_stats_port, collect_server_ports, node_ports, taken_stats_port, check_nodes,
  check_remote, first_in,
}
use nextpanel.Nodes.Credentials.{
  defined, or_put, put, get, assign, random_password, random_short_id, reality_private_key,
  reality_public_key,
}
use nextpanel.Nodes.Identity.{native_members}
use nextpanel.Nodes.Dns.{
  assert_owned_server, assert_active_cloudflare, create_cloudflare_dns_record, transition_suffix,
}
use nextpanel.Nodes.World.{with_database_locks, insert_node, own_node, start}
use nextpanel.Prelude.{text_eq}
use nextpanel.Nodes.Shape.{assert_egress_ip_policy_supported, assert_recommended_port, is_cf_xhttp}
use nextpanel.Prelude.{update_where}
use nextpanel.Nodes.Manage.{clean_held}
use nextpanel.Nodes.World.{delete_node}
use nextpanel.Nodes.Ports.{origin_port}

abbrev toy_host : Host
toy_host = record {
  decode_component = some;
  base64_bytes = λ s. s;
  base64_text = λ s. s;
  utf8_fatal = some;
  utf8_text = λ s. s;
  byte_length = λ s. 0;
  is_ip = λ s. 4;
  domain_to_ascii = λ s. s;
  parse_json = λ s. none;
  print_json = λ j. [];
  string_of = λ j. none;
  number_of = λ j. none;
  url = λ s. none;
  query_get = λ s n. none;
}

abbrev toy_draw : Draw
toy_draw = record {
  random_uuid = text "u1";
  random_bytes = λ n. text "abcdefabcdefabcdef";
  private_der = text "0123456789abcdefPRIV";
  public_der = text "0123456789abPUB";
  base64url = λ bytes. bytes;
  hex = λ bytes. text "0123456789abcdef";
}

-- The world counts the identifiers that it has given. Every deployment fails and is undone.
abbrev toy : Outside ℕ
toy = record {
  deploy = λ id options s. (ok (record { success = false; rollback_failed = false }), s);
  undeploy = λ id s. (ok tt, s);
  toggle_service = λ id enable s. (ok tt, s);
  unavailable_ports = λ server own w. (ok (22 ∷ []), w);
  verify = λ user w. (ok (record { valid = true; zone_active = true }), w);
  get_decrypted_token = λ user w. (
    ok (some (record { api_token = text "t"; zone_id = text "z"; domain = text "example.org" })),
    w,
  );
  create_a_record = λ settings name ip proxied w. (ok (text "rec"), w);
  delete_record = λ settings record_id w. (ok tt, w);
  has_cf_origin = false;
  preflight = λ user server mapped w. (ok tt, w);
  remove_origin = λ user route w. (ok tt, w);
  check_xhttp_edge = λ user c route w. (ok tt, w);
  lock = λ keys w. (ok tt, w);
  unlock = λ keys w. (ok tt, w);
  write = λ w. (ok tt, w);
  draw = λ w. (ok toy_draw, w);
  new_id = λ w. (ok (w ∷ []), suc w);
  encrypt = λ c w. (ok (text "sealed"), w);
  encrypt_exit = λ c w. (ok (text "sealed"), w);
  decrypt = λ s w. (ok [], w);
  host = toy_host;
  pilot_enabled = false;
}

abbrev server : Text → Server
server id = record {
  id = id;
  user_id = text "ann";
  ip = text "192.0.2.1";
  deleting = false;
  has_ssh_auth = true;
}

abbrev empty : Db ℕ
empty = record {
  nodes = [];
  servers = server (text "s1") ∷ server (text "s2") ∷ [];
  started = [];
  world = 1;
}

abbrev reality_node : CreateNodeFromPresetDto
reality_node = record {
  server_id = text "s1";
  name = text "one";
  preset = vless_reality;
  xhttp_mode = none;
}

abbrev chain : CreateChainNodeDto
chain = record {
  entry_server_id = text "s1";
  name = text "two";
  preset = vless_reality;
  xhttp_mode = none;
  exit_type = none;
  exit_server_id = some (text "s2");
  socks_uri = none;
}

abbrev to_tuic : UpdateNodeDto
to_tuic = record {
  server_id = none;
  name = none;
  protocol = some tuic;
  implementation = none;
  transport = none;
  tls = none;
  listen_port = some 16001;
  domain = none;
  egress_ip_policy = none;
  credentials = none;
  enabled = none;
  xhttp_mode = none;
}

abbrev requests : List Request
requests =
    creates_from_preset (text "ann") reality_node
    ∷ creates_chain (text "ann") chain
    ∷ updates (1 ∷ []) to_tuic (text "ann")
    ∷ toggles (2 ∷ []) (text "ann")
    ∷ []

unchanged : (id : Text) (nodes : List Node) → nodes ≡ update_where (has_node_id id) (λ n. n) nodes
unfolding update_where
unchanged id [] = refl
unchanged id (n ∷ nodes) = ground (arith, unchanged id nodes)

empty-IsSound : IsSound empty.nodes
empty-IsSound = record { keyed = tt; apart = tt }

toy-Deploys : Deploys toy
toy-Deploys = record {
  writes = λ id options s n. n;
  deploy_writes = λ id options s. unchanged id s.nodes;
  id_kept = λ id options s n. refl;
  place_kept = λ id options s n. record {
    same_server = refl;
    same_port = refl;
    same_implementation = refl;
    same_exit = refl;
    same_exit_port = refl;
  };
  stats_kept = λ id options s n. inl refl;
  undeploy-Holds = λ id. record { at = λ s n. n };
  toggle_service-Holds = λ id enable. record { at = λ s n. n };
}

serve_all-IsSound_example : IsSound (serve_all toy requests empty).nodes
serve_all-IsSound_example = serve_all-IsSound toy toy-Deploys requests empty empty-IsSound

abbrev tuic_shape : NodeShape
tuic_shape = record {
  protocol = tuic;
  implementation = some sing_box;
  transport = none;
  tls = tls_on;
}

normalize_node_shape-fixed_example :
    (normalize_node_shape (as_input tuic_shape) ≡ ok tuic_shape) ↔ IsAllowed tuic_shape
normalize_node_shape-fixed_example = normalize_node_shape-fixed tuic_shape

toy_draw-IsDrawn : IsDrawn toy_draw
unfolding random_password reality_private_key reality_public_key random_short_id
toy_draw-IsDrawn = record {
  uuid_filled = refl;
  password_filled = refl;
  private_filled = refl;
  public_filled = refl;
  short_id_filled = refl;
}

abbrev other_draw : Draw
other_draw = record toy_draw { random_uuid = text "u2" }

abbrev tuic_credentials : Creds
tuic_credentials = (text "uuid", text "u1") ∷ (text "password", text "abcdefabcdefabcdef") ∷ []

ensure_credentials_again_example :
    ensure_credentials other_draw other_draw tuic_shape (as_given tuic_credentials)
    ≡ ok tuic_credentials
unfolding ensure_credentials native_members defined or_put put get text_eq random_password
ensure_credentials_again_example =
    ensure_credentials_again toy_draw toy_draw other_draw other_draw tuic_shape [] tuic_credentials
      toy_draw-IsDrawn toy_draw-IsDrawn refl

protocol_presets-Misses_example :
    Misses (candidate_ports 10005 (some xray)) (candidate_ports 14007 (some xray))
unfolding protocol_presets
protocol_presets-Misses_example =
    protocol_presets-Misses vless_reality vmess_tcp 10000 14000 5 7 refl refl (λ e. cc)
      (omega arith) (omega arith)

choose_port-IsFree_example :
    Misses (443 ∷ []) (candidate_ports 8443 (some xray)) × InPool (some 443) none true 8443
unfolding choose_port origin_port is_free derived_stats_port
choose_port-IsFree_example =
    choose_port-IsFree (443 ∷ []) (some 443) none (some xray) true 8443 refl

abbrev tuic_node : Node
tuic_node =
    record (blank_node (1 ∷ []) (text "s1") (text "ann") (text "one") tuic_shape 16001
      (text "old")) { status = running }

abbrev one_node : Db ℕ
one_node = record empty {
  nodes = record tuic_node { listen_port = 16002; credentials_enc = text "new" } ∷ [];
}

deploy_or_restore-restored_example :
    After
      (λ _ _. ⊥)
      (λ nodes. find (has_node_id (1 ∷ [])) nodes ≡ some tuic_node)
      (deploy_or_restore toy (1 ∷ []) (text "ann") tuic_node none one_node).0
      (deploy_or_restore toy (1 ∷ []) (text "ann") tuic_node none one_node).1.nodes
unfolding text_eq
deploy_or_restore-restored_example =
    deploy_or_restore-restored toy (1 ∷ []) (text "ann") tuic_node
      (record tuic_node { listen_port = 16002; credentials_enc = text "new" }) none one_node tt refl
      refl
      (record {
        id = refl;
        user_id = refl;
        public_port = refl;
        cf_origin_route = refl;
        exit_server_id = refl;
        exit_port = refl;
        exit_type = refl;
        chain_cred_enc = refl;
        socks_exit_enc = refl;
        socks_exit_name = refl;
      })
      refl

remove_exclusive-undeployed_example :
    ((toy.undeploy (1 ∷ []) one_node).0 ≡ ok tt)
    × (any (has_node_id (1 ∷ [])) (remove_exclusive toy (1 ∷ []) (text "ann") one_node).1.nodes
        ≡ false)
unfolding remove_exclusive own_node clean_held delete_node text_eq
remove_exclusive-undeployed_example =
    remove_exclusive-undeployed toy (1 ∷ []) (text "ann") one_node tt refl

-- Every DNS record is refused.
abbrev no_dns : Outside ℕ
no_dns = record toy {
  create_a_record = λ settings name ip proxied w. (err (outside false (text "refused")), w);
}

abbrev tuic_dto : CreateNodeDto
tuic_dto = record {
  server_id = text "s1";
  name = text "three";
  protocol = tuic;
  implementation = some sing_box;
  transport = none;
  tls = some tls_on;
  listen_port = 16005;
  domain = none;
  egress_ip_policy = none;
  credentials = [];
  enabled = none;
}

abbrev known_node : Db ℕ
known_node = record one_node { world = 2 }

-- The row was there: an identifier was given for it.
create_was_tried : (create no_dns tuic_dto (text "ann") known_node).1.world ≡ 3
unfolding create checked_shape is_cf_xhttp create_row provision_or_remove provision_cloudflare_dns
    stored_or_thrown rollback_created_node delete_node create_cloudflare_dns_record
    transition_suffix assert_owned_server assert_active_cloudflare assert_port_available check_nodes
    check_remote first_in collect_server_ports node_ports taken_stats_port normalize_node_shape
    assert_egress_ip_policy_supported assert_recommended_port sealed_credentials ensure_credentials
    native_members defined or_put put get assign random_password with_database_locks insert_node
    own_node start text_eq
create_was_tried = refl

create-undone_example : (create no_dns tuic_dto (text "ann") known_node).1.nodes ≡ known_node.nodes
unfolding create checked_shape is_cf_xhttp create_row provision_or_remove provision_cloudflare_dns
    stored_or_thrown rollback_created_node delete_node create_cloudflare_dns_record
    transition_suffix assert_owned_server assert_active_cloudflare assert_port_available check_nodes
    check_remote first_in collect_server_ports node_ports taken_stats_port normalize_node_shape
    assert_egress_ip_policy_supported assert_recommended_port sealed_credentials ensure_credentials
    native_members defined or_put put get assign random_password with_database_locks insert_node
    own_node start text_eq
create-undone_example =
    create-undone no_dns tuic_dto (text "ann") known_node (outside false (text "refused"))
      (record { writes = λ w. refl; unlocks = λ keys w. refl }) refl

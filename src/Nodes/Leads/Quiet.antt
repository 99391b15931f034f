-- ===== src/Nodes/Leads/Quiet.antt =====
-- apps/server/src/nodes/nodes.service.ts: the guards and the calls of other services leave the table
-- Node alone.
use nextpanel.Prelude.{Bool, true, false, not, Option, none, some, [], Text, find, ◌==◌}
use nextpanel.Prelude.Exec.{Result, ok, err, lift, gets, reject, throw}
use nextpanel.Nodes.Model.{
  NodeError, server_not_found, server_deleting, cloudflare_not_configured, cloudflare_not_valid,
  zone_not_active, edge_unavailable, wrapped, managed_preset_only, auto_policy,
}
use nextpanel.Nodes.Shape.{
  NodeShape, normalize_node_shape, is_cf_xhttp, is_managed_certificate_protocol,
  assert_egress_ip_policy_supported, assert_recommended_port,
}
use nextpanel.Nodes.Credentials.{Creds, Given}
use nextpanel.Nodes.Identity.{cf_xhttp_profile, ensure_credentials}
use nextpanel.Nodes.World.{Outside, Settings, Db, Service, ask, required, has_server_id}
use nextpanel.Nodes.Dns.{
  DnsRecord, dns_name, find_own_server, assert_owned_server, assert_active_cloudflare,
  cleanup_cloudflare_dns, delete_logged, delete_with, check_edge, transition_suffix,
  create_cloudflare_dns_record, check_xhttp_edge,
}
use nextpanel.Nodes.Create.{
  sealed_credentials, checked_shape, CreateNodeDto, input_of, when, or_default,
}
use nextpanel.Nodes.Leads.{Table, Leads, Leads-bind, Leads-catch, Leads-ask, Leads-gets}

-- The call keeps what the table fits, whether it returns or throws.
abbrev pub Holds : {W A : Type 0} → Table → Service W A → Type 0
Holds N m = Leads N m (λ _. N) N

module _ {W : Type 0} {N : Table} where
  pub Holds-reject : (bad : Bool) (e : NodeError) → Holds N (reject {S = Db W} bad e)
  Holds-reject true e = record { at = λ s n. n }
  Holds-reject false e = record { at = λ s n. n }

  pub Holds-required : {A : Type 0} (e : NodeError) (o : Option A) → Holds N (required {W = W} e o)
  Holds-required e none = record { at = λ s n. n }
  Holds-required e (some a) = record { at = λ s n. n }

  pub Holds-lift : {A : Type 0} (r : Result NodeError A) → Holds N (λ (s : Db W). (r, s))
  Holds-lift (ok a) = record { at = λ s n. n }
  Holds-lift (err e) = record { at = λ s n. n }

  pub Holds-pure : {A : Type 0} (a : A) → Holds N (λ (s : Db W). (ok a, s))
  Holds-pure a = record { at = λ s n. n }

  pub Holds-throw : {A : Type 0} (e : NodeError) → Holds N (throw {S = Db W} {A = A} e)
  Holds-throw e = record { at = λ s n. n }

  pub assert_owned_server-Holds :
      (server user : Text) → Holds N (assert_owned_server {W = W} server user)
  unfolding assert_owned_server
  assert_owned_server-Holds server user =
      Leads-bind (gets (find_own_server server user)) _ (Leads-gets _) (λ found.
        Leads-bind (required server_not_found found) _ (Holds-required _ found)
          (λ v. Holds-reject v.deleting server_deleting))

module _ {W : Type 0} {N : Table} (o : Outside W) where
  pub assert_active_cloudflare-Holds : (user : Text) → Holds N (assert_active_cloudflare o user)
  unfolding assert_active_cloudflare
  assert_active_cloudflare-Holds user = Leads-bind (ask (o.verify user)) _ (Leads-ask _) (λ cf.
      Leads-bind (reject (not cf.valid) cloudflare_not_valid) _ (Holds-reject _ _)
        (λ _. Holds-reject (not cf.zone_active) zone_not_active))

  delete_logged-Holds :
      (settings : Settings) (record_id : Text) → Holds N (delete_logged o settings record_id)
  unfolding delete_logged
  delete_logged-Holds settings record_id =
      Leads-catch (ask (o.delete_record settings record_id)) _ (Leads-ask _) (λ e. Holds-pure tt)

  delete_with-Holds :
      (settings : Option Settings) (record_id : Text) → Holds N (delete_with o settings record_id)
  unfolding delete_with
  delete_with-Holds none record_id = Holds-pure tt
  delete_with-Holds (some settings) record_id = delete_logged-Holds settings record_id

  pub cleanup_cloudflare_dns-Holds :
      (user record_id : Text) → Holds N (cleanup_cloudflare_dns o user record_id)
  unfolding cleanup_cloudflare_dns
  cleanup_cloudflare_dns-Holds user record_id =
      Leads-bind (ask (o.get_decrypted_token user)) _ (Leads-ask _)
        (λ settings. delete_with-Holds settings record_id)

  transition_suffix-Holds : (transition : Bool) → Holds N (transition_suffix o transition)
  unfolding transition_suffix
  transition_suffix-Holds true = Leads-bind (ask o.draw) _ (Leads-ask _) (λ draw. Holds-pure _)
  transition_suffix-Holds false = Holds-pure []

  pub create_cloudflare_dns_record-Holds :
      (user node server : Text) (proxied transition : Bool)
      → Holds N (create_cloudflare_dns_record o user node server proxied transition)
  unfolding create_cloudflare_dns_record
  create_cloudflare_dns_record-Holds user node server proxied transition =
      Leads-bind (ask (o.get_decrypted_token user)) _ (Leads-ask _) (λ given.
        Leads-bind (required cloudflare_not_configured given) _ (Holds-required _ given)
          (λ settings.
            Leads-bind (gets (λ s. find (has_server_id server) s.servers)) _ (Leads-gets _)
              (λ found.
                Leads-bind (required server_not_found found) _ (Holds-required _ found) (λ v.
                  Leads-bind (transition_suffix o transition) _ (transition_suffix-Holds transition)
                    (λ suffix.
                      Leads-bind
                        (ask
                          (o.create_a_record settings (dns_name node suffix settings) v.ip proxied))
                        _ (Leads-ask _)
                        (λ id.
                          let r : DnsRecord = record {
                            domain = dns_name node suffix settings;
                            record_id = id;
                          } in
                          Holds-pure r))))))

  check_edge-Holds :
      (plain : Bool) (user : Text) (c : Creds) (route : Option Text)
      → Holds N (check_edge o plain user c route)
  unfolding check_edge
  check_edge-Holds true user c route = Holds-pure tt
  check_edge-Holds false user c route =
      Leads-bind (reject (not o.has_cf_origin) edge_unavailable) _ (Holds-reject _ _) (λ _.
        Leads-catch (ask (o.check_xhttp_edge user c route)) _ (Leads-ask _)
          (λ e. Holds-throw (wrapped e)))

  pub check_xhttp_edge-Holds :
      (user : Text) (c : Creds) (route : Option Text) → Holds N (check_xhttp_edge o user c route)
  unfolding check_xhttp_edge
  check_xhttp_edge-Holds user c route =
      Leads-bind (lift (cf_xhttp_profile c)) _ (Holds-lift (cf_xhttp_profile c))
        (λ profile. check_edge-Holds (profile.protocol == 3) user c route)

  pub sealed_credentials-Holds :
      (shape : NodeShape) (given : Given) → Holds N (sealed_credentials o shape given)
  unfolding sealed_credentials
  sealed_credentials-Holds shape given = Leads-bind (ask o.draw) _ (Leads-ask _) (λ draw.
      Leads-bind (ask o.draw) _ (Leads-ask _) (λ keys.
        Leads-bind (lift (ensure_credentials draw keys shape given)) _ (Holds-lift _)
          (λ c. Leads-ask (o.encrypt c))))

  pub when-Holds : (b : Bool) (m : Service W Unit) → Holds N m → Holds N (when b m)
  when-Holds true m h = h
  when-Holds false m h = Holds-pure tt

  pub checked_shape-Holds : (dto : CreateNodeDto) (user : Text) → Holds N (checked_shape o dto user)
  unfolding checked_shape
  checked_shape-Holds dto user =
      Leads-bind (lift (normalize_node_shape (input_of dto))) _ (Holds-lift _) (λ shape.
        Leads-bind
          (reject (is_cf_xhttp shape.protocol shape.transport shape.tls) managed_preset_only) _
          (Holds-reject _ _)
          (λ _.
            Leads-bind
              (lift (
                assert_egress_ip_policy_supported shape
                  (or_default auto_policy dto.egress_ip_policy)))
              _ (Holds-lift _)
              (λ _.
                Leads-bind (lift (assert_recommended_port shape dto.listen_port)) _ (Holds-lift _)
                  (λ _.
                    Leads-bind
                      (when (is_managed_certificate_protocol shape.protocol)
                        (assert_active_cloudflare o user))
                      _ (when-Holds _ _ (assert_active_cloudflare-Holds user))
                      (λ _. Holds-pure shape)))))

-- ===== src/Dns/Resolved.antt =====
-- When the DNS check succeeds.
use kuberhealthy.Prelude.{
  ◌≡◌, refl, Bool, true, false, not, ◌&&◌, Option, none, some, List, [], ◌∷◌, all, Text, is_empty,
  arith,
}
use kuberhealthy.Api.Results.{Err, reply}
use kuberhealthy.Dns.{
  Endpoint, ips_of, get_ips_from_endpoint, if_any, look_up, look_up_all, look_up_listed,
  check_endpoints,
}

abbrev pub is_none : Option Err → Bool
is_none none = true
is_none (some e) = false

module _ (lookup_at : (ip : Text) → Option Err) (lookup_service : Option Err) where
  -- The address is not empty, and the server there knows the host.
  abbrev pub resolves : Text → Bool
  resolves ip = not (is_empty ip) && is_none (lookup_at ip)

  look_up-resolves : (ip : Text) → is_none (look_up lookup_at lookup_service ip) ≡ resolves ip
  look_up-resolves [] = refl
  look_up-resolves (c ∷ ip) = ground arith

  look_up_all-resolves :
      (ips : List Text) → is_none (look_up_all lookup_at lookup_service ips) ≡ all resolves ips
  unfolding look_up_all
  look_up_all-resolves [] = refl
  look_up_all-resolves (ip ∷ ips) = ground (arith, look_up-resolves ip, look_up_all-resolves ips)

  if_any-resolves :
      (ips : List Text)
      → is_none (look_up_listed lookup_at lookup_service (if_any ips))
        ≡ (not (is_empty ips) && all resolves ips)
  if_any-resolves [] = refl
  if_any-resolves (ip ∷ ips) = look_up_all-resolves (ip ∷ ips)

-- With a label selector, the DNS check has no error exactly if the listed endpoints have an address at
-- all, and the server at every one of their addresses resolves the host.
pub check_endpoints-resolves :
    (lookup_at : (ip : Text) → Option Err) (lookup_service : Option Err) (endpoints : List Endpoint)
    → is_none (check_endpoints lookup_at lookup_service (reply endpoints)) ≡ (
        not (is_empty (ips_of endpoints))
        && all (resolves lookup_at lookup_service) (ips_of endpoints))
unfolding check_endpoints get_ips_from_endpoint
check_endpoints-resolves lookup_at lookup_service [] = unfold ips_of in refl
check_endpoints-resolves lookup_at lookup_service (ep ∷ endpoints) =
    if_any-resolves lookup_at lookup_service (ips_of (ep ∷ endpoints))

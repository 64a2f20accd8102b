-- ===== src/Access/Examples/Issuing.antt =====
-- The theorems on issuing and replacing grants at concrete inputs.
use rtsp_proxy.Prelude.{ℕ, ◌+◌, ◌≡◌, refl, String, none, some, [], leb, String-discrete, eqb, true}
use rtsp_proxy.Prelude.Errors.{ok}
use rtsp_proxy.Access.Grants.{checked_grant, active_at}
use rtsp_proxy.Access.Control.{AccessGrantStore, Means, IssuedAccessGrant, issue, idempotency}
use rtsp_proxy.Access.Control.Issued.{IsIssued, issue-IsIssued}
use rtsp_proxy.Access.Control.Calls.{rotate}
use rtsp_proxy.Access.Control.Calls.Rotation.{IsRotated, rotate-IsRotated}
use rtsp_proxy.Access.Grants.{AuthorizeRequest}
use rtsp_proxy.Access.Authorizer.{AccessAuthorizerStore, Verifier, Clocks}
use rtsp_proxy.Access.Examples.{grant, target, floats}

abbrev digest_text : String
digest_text = "0123456789abcdef0123456789abcdef0123456789abcdef0123456789abcdef"

abbrev means : Means
means = record {
  username = λ id. "grant-21";
  digest = λ secret. digest_text;
  primary_key_id = "k";
  sha256 = λ operation request. digest_text;
  is_alnum = λ c. leb b'0' c;
  now = 50;
  new_grant_id = 21;
  new_secret = λ kind. "ABCDEFGHJKMN";
}

abbrev issued : IssuedAccessGrant
issued = record {
  grant = record {
    id = 21;
    camera_id = 10;
    username = "grant-21";
    token_verifier = digest_text;
    pepper_key_id = "k";
    not_before = 50;
    expires_at = some 2_000_050;
    revoked_at = none;
    revision = 1;
    kind = "temporary";
    created_by = "operator";
    last_used_at = none;
  };
  secret = "ABCDEFGHJKMN";
}

abbrev api : AccessGrantStore ℕ
api = record {
  check_access_grant_request = λ i s. (ok tt, s);
  create_access_grant = λ g context i s. (ok g, s);
  get_access_grant_by_id = λ id s. (ok (some grant), s);
  list_access_grants = λ camera limit s. (ok [], s);
  revoke_access_grant = λ id at revision context s. (ok grant, s);
  purge_inactive_access_grants = λ camera before context s. (ok [], s);
  rotate_access_grant = λ id replacement end revision context i s. (ok (grant, replacement), s + 1);
}

is_issued : issue means 10 21 (some 2_000_000) "temporary" "operator" ≡ ok issued
unfolding issue checked_grant String-discrete
is_issued = refl

issue-IsIssued_example : IsIssued means 10 21 (some 2_000_000) "temporary" "operator" issued
issue-IsIssued_example =
    issue-IsIssued means 10 21 (some 2_000_000) "temporary" "operator" issued is_issued

is_rotated : (rotate api means 20 10 (some 2_000_000) none none none none none 0).0 ≡ ok issued
unfolding rotate issue checked_grant String-discrete active_at idempotency
is_rotated = refl

rotate-IsRotated_example : IsRotated api means 20 10 (some 2_000_000) none none issued
rotate-IsRotated_example =
    rotate-IsRotated api means 20 10 (some 2_000_000) none none none none none 0 issued is_rotated

-- The store has the camera and the grant that was issued; its state counts what is asked.
abbrev door : AccessAuthorizerStore ℕ
door = record {
  get_access_target = λ node public s. (ok (some target), s + 1);
  get_access_grant = λ camera user s. (ok (some issued.grant), s + 1);
  rehash_access_grant = λ id token key revision s. (ok true, s);
  mark_access_grant_used = λ id s. (ok true, s + 1);
}

abbrev same_digest : Verifier
same_digest = record {
  primary_key_id = "k";
  digest = means.digest;
  verify = λ secret expected key. eqb String-discrete expected (means.digest secret);
  contains = λ cidr address. true;
}

abbrev later : Clocks
later = record { floats = floats; at_peer = 0; at_grant = 0; now = 60 }

abbrev reader : AuthorizeRequest
reader = record {
  node_id = 1;
  public_id = "camera";
  peer = 7;
  username = "grant-21";
  password = "ABCDEFGHJKMN";
  action = "read";
  protocol = "rtsp";
}
